-- ===== src/Coordinator/Forward/Drained.antt =====
-- crates/coordinator/src/api.rs: the loop over the frames in the buffer.
use decompute.Prelude.{
  ℕ, zero, suc, ◌≤◌, Bool, Text, List, [], ◌∷◌, none, some, Result, length, ◌≡◌, arith, inl, inr,
  Option-cases,
}
use decompute.Prelude.Bytes.{take, drop, length-drop}
use decompute.Core.Json.{Json}
use decompute.Protocol.Requests.{GenerationStreamEvent}
use decompute.Coordinator.Record.{SelectedWorker}
use decompute.Coordinator.OpenAi.Response.{StreamContext}
use decompute.Coordinator.Sse.{sse_frame_end}
use decompute.Coordinator.Sse.Framing.{sse_frame_end-bounds}
use decompute.Coordinator.Forward.{Task, continues, handle_frame, drain_frames}
use decompute.Coordinator.Forward.Ends.{Flow-cases}

no_frame_in_nothing : (n : ℕ) → sse_frame_end [] ≡ some n → ⊥
no_frame_in_nothing n e = let (a, b) = sse_frame_end-bounds [] n e in omega (arith, a, b)

module _ {V : Type 0} (json : Json V) (parse : Text → Result (GenerationStreamEvent V) Text)
    (utf8_error : List ℕ → Text) (reachable : Bool) (worker : SelectedWorker)
    (context : StreamContext) where
  -- As many rounds of the loop as the buffer has bytes are enough: where the loop ends without a
  -- return from the task, no frame is left in the buffer.
  pub drain_frames_enough :
      (fuel : ℕ) (pending : List ℕ) (task next : Task)
      → length pending ≤ fuel
      → (drain_frames json parse utf8_error reachable worker context fuel pending task).0
        ≡ continues next
      → sse_frame_end
          (drain_frames json parse utf8_error reachable worker context fuel pending task).1
        ≡ none
  unfolding drain_frames
  drain_frames_enough zero [] task next le h = elim (Option-cases (sse_frame_end [])) [
    | inl e ↦ e
    | inr (n, e) ↦ absurd (no_frame_in_nothing n e)
  ]
  drain_frames_enough zero (b ∷ bytes) task next le h = absurd (omega (arith, le))
  drain_frames_enough (suc fuel) pending task next le h =
      elim (Option-cases (sse_frame_end pending)) [
        | inl e ↦ rw (drain_frames, e) e
        | inr (n, e) ↦
            let frame =
              handle_frame json parse utf8_error reachable worker context (take n pending) task in
            let (a, b) = sse_frame_end-bounds pending n e in
            elim (Flow-cases frame) [
              | inl (t, f) ↦
                  rw (drain_frames, e, f)
                    (drain_frames_enough fuel (drop n pending) t next
                      (omega (arith, a, b, le, length-drop n pending))
                      (rw (drain_frames, e, f) at h))
              | inr (t, f) ↦ let k = rw (drain_frames, e, f) at h in cc
            ]
      ]
