-- ===== src/Tests/Lifecycle.antt =====
-- A sniffer over a file, and a reader that is stopped by its end and calls again.
use zanarkand.Prelude.{ℕ, ◌+◌, ◌≤◌, refl, true, false, some, [], ◌∷◌, length, arith}
use zanarkand.Sniffer.{SnifferState}
use zanarkand.Sniffer.Lifecycle.{
  at_end, leaving, left, program, process_frames, reading, call, come_back, ended, Life, new_life,
  subscribe, enter, run, file_end, deferred, send, take_packet, give_up, Reach, start, next, Steps,
  here, then_step,
}
use zanarkand.Sniffer.Lifecycle.Ends.{Steps-taken}

-- Two packets are queued when the file ends.
abbrev at_file_end : Life ℕ
at_file_end = record (new_life 5) {
  state = SnifferState.finished;
  context = some false;
  phase = leaving at_end;
  reader = reading process_frames;
  calls = 1;
  queue = 7 ∷ 8 ∷ [];
  sent = 7 ∷ 8 ∷ [];
}

reached : Reach 5 at_file_end
reached =
    next
      (next
        (next (next (next (next start (subscribe tt refl)) (enter refl)) (run refl))
          (send 7 tt (omega arith)))
        (send 8 tt (omega arith)))
      (file_end refl)

-- One of them is taken by `ProcessFrames`, and the other by a call of `NextFrame` behind it.
abbrev given_up : Life ℕ
given_up = record at_file_end {
  context = some true;
  phase = left at_end;
  reader = ended;
  calls = 2;
  queue = [];
  taken = 7 ∷ 8 ∷ [];
}

then_given_up : Steps at_file_end given_up
then_given_up =
    then_step
      (then_step
        (then_step
          (then_step
            (then_step (then_step here (deferred at_end refl)) (take_packet refl refl refl))
            (give_up refl (λ e. cc)))
          (call program tt))
        (take_packet refl refl refl))
      (come_back refl)

Steps-taken_example :
    (length given_up.taken + at_file_end.calls ≤ length at_file_end.taken + 1 + given_up.calls)
    × (length at_file_end.queue + at_file_end.calls ≤ length given_up.queue + 1 + given_up.calls)
Steps-taken_example = Steps-taken reached tt then_given_up
