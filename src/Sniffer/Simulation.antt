-- ===== src/Sniffer/Simulation.antt =====
-- Two handlers that agree through a view of their states agree over a whole run of `ProcessFrames`.
use zanarkand.Prelude.{ℕ, zero, suc, ◌≡◌, refl, ap, ◌∙◌, Bool, true, false, List, [], ◌∷◌}
use zanarkand.Io.{Reader}
use zanarkand.Error.{Outcome, ok, err, panic}
use zanarkand.Message.{GenericHeader, decode_header}
use zanarkand.Frame.{Frame}
use zanarkand.Sniffer.{
  FrameHandler, process_messages, decoded, called, Reset, Turn, Ended, process_frames, with_frame,
  with_reader, frame_done, message_reader, next_frame,
}

-- The view of a state, with the outcome kept.
abbrev pub over : {S T O : Type 0} → (S → T) → S × O → T × O
over v p = (v p.0, p.1)

abbrev pub Agrees : {F S T : Type 0} → (S → T) → FrameHandler F S → FrameHandler F T → Type 0
Agrees {F} {S} v fn fn' =
    (s : S) (f : Frame F) (h : GenericHeader) (r : Reader) → fn' (v s) f h r ≡ over v (fn s f h r)

module _ {F S T : Type 0} (v : S → T) (fn : FrameHandler F S) (fn' : FrameHandler F T)
    (agree : Agrees v fn fn') where
  called-over :
      (f : Frame F) (later : S → Reader → S × Outcome Reader)
      (later' : T → Reader → T × Outcome Reader)
      → ((s : S) (r : Reader) → later' (v s) r ≡ over v (later s r))
      → (p : S × Outcome Reader) → called fn' f later' (over v p) ≡ over v (called fn f later p)
  unfolding called
  called-over f later later' h (s, ok r) = h s r
  called-over f later later' h (s, err e) = refl
  called-over f later later' h (s, panic) = refl

  decoded-over :
      (f : Frame F) (later : S → Reader → S × Outcome Reader)
      (later' : T → Reader → T × Outcome Reader)
      → ((s : S) (r : Reader) → later' (v s) r ≡ over v (later s r))
      → (s : S) (o : Outcome (GenericHeader × Reader))
      → decoded fn' f later' (v s) o ≡ over v (decoded fn f later s o)
  unfolding decoded
  decoded-over f later later' h s (ok (x, r)) =
      ap (called fn' f later') (agree s f x r) ∙ called-over f later later' h (fn s f x r)
  decoded-over f later later' h s (err e) = refl
  decoded-over f later later' h s panic = refl

  process_messages-over :
      (f : Frame F) (n : ℕ) (s : S) (r : Reader)
      → process_messages fn' f n (v s) r ≡ over v (process_messages fn f n s r)
  unfolding process_messages
  process_messages-over f zero s r = refl
  process_messages-over f (suc n) s r =
      decoded-over f (process_messages fn f n) (process_messages fn' f n)
        (process_messages-over f n) s (decode_header r)

  module _ (z : F) (reset : Reset) where
    frame_done-over :
        (f : Frame F) (pool : ℕ) (active : Bool) (later : ℕ → S → S × Ended)
        (later' : ℕ → T → T × Ended)
        → ((p : ℕ) (s : S) → later' p (v s) ≡ over v (later p s))
        → (p : S × Outcome Reader)
        → frame_done z reset fn' f pool active later' (over v p)
          ≡ over v (frame_done z reset fn f pool active later p)
    unfolding frame_done
    frame_done-over f pool true later later' h (s, ok r) = h _ s
    frame_done-over f pool false later later' h (s, ok r) = refl
    frame_done-over f pool active later later' h (s, err e) = refl
    frame_done-over f pool active later later' h (s, panic) = refl

    with_reader-over :
        (f : Frame F) (active : Bool) (later : ℕ → S → S × Ended) (later' : ℕ → T → T × Ended)
        → ((p : ℕ) (s : S) → later' p (v s) ≡ over v (later p s))
        → (s : S) (o : Outcome (Reader × ℕ))
        → with_reader z reset fn' f active later' (v s) o
          ≡ over v (with_reader z reset fn f active later s o)
    unfolding with_reader
    with_reader-over f active later later' h s (ok (r, pool)) =
        ap (frame_done z reset fn' f pool active later') (process_messages-over f f.count s r)
        ∙ frame_done-over f pool active later later' h (process_messages fn f f.count s r)
    with_reader-over f active later later' h s (err e) = refl
    with_reader-over f active later later' h s panic = refl

    with_frame-over :
        (pool : ℕ) (active : Bool) (later : ℕ → S → S × Ended) (later' : ℕ → T → T × Ended)
        → ((p : ℕ) (s : S) → later' p (v s) ≡ over v (later p s))
        → (s : S) (o : Outcome (Frame F))
        → with_frame z reset fn' pool active later' (v s) o
          ≡ over v (with_frame z reset fn pool active later s o)
    unfolding with_frame
    with_frame-over pool active later later' h s (ok f) =
        with_reader-over f active later later' h s (message_reader reset f pool)
    with_frame-over pool active later later' h s (err e) = refl
    with_frame-over pool active later later' h s panic = refl

    pub process_frames-over :
        (started : Bool) (ts : List (Turn F)) (pool : ℕ) (s : S)
        → process_frames z reset fn' started pool (v s) ts
          ≡ over v (process_frames z reset fn started pool s ts)
    unfolding process_frames
    process_frames-over started [] pool s = refl
    process_frames-over started (t ∷ ts) pool s =
        with_frame-over pool t.active (λ p s'. process_frames z reset fn started p s' ts)
          (λ p s'. process_frames z reset fn' started p s' ts)
          (λ p s'. process_frames-over started ts p s') s (next_frame z started t.pick)
