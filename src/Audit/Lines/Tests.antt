-- ===== src/Audit/Lines/Tests.antt =====
-- Two calls of Notify: the disk is full in the middle of the first line, and the second goes through.
use golectra.Audit.Lines.Whole.{file_in_lines, lines_of, IsWhole}
use golectra.Audit.Lines.{
  Log, Call, Reach, start, call_of, lock, opened, write, wrote, write_failed, close,
}
use golectra.Domain.{Result, ok, err, other, Error}
use golectra.MetricsService.{Event}
use golectra.Base.{none, ◌≡◌, refl, [], String, ◌∷◌, All}

abbrev event : Event
event = record { timestamp = 1700000000; metrics = "HeapAlloc" ∷ []; ip_address = "10.0.0.7" }

abbrev marshal : Event → Result String
marshal e = ok e.ip_address

abbrev failed : Call
failed = call_of "10.0.0.7" "10.0" (err (other "write audit file: no space"))

abbrev full_disk : Error
full_disk = other "no space"

abbrev first : Log
first = record { file = "{}\n10.0"; holder = none; returned = failed ∷ [] }

abbrev second : Log
second = record {
  file = "{}\n10.010.0.0.7\n";
  holder = none;
  returned = failed ∷ call_of "10.0.0.7" "10.0.0.7\n" (ok tt) ∷ [];
}

first_call : Reach marshal (start "{}\n") first
first_call =
    Reach.next
      (Reach.next
        (Reach.next
          (Reach.next (Reach.next Reach.here (lock event "10.0.0.7" refl refl refl))
            (opened "10.0.0.7" refl refl))
          (write "10.0.0.7" "" "10.0" ".0.7\n" refl refl))
        (write_failed "10.0.0.7" "10.0" ".0.7\n" full_disk refl refl))
      (close "10.0.0.7" "10.0" _ (ok tt) refl refl)

second_call : Reach marshal (start "{}\n") second
second_call =
    Reach.next
      (Reach.next
        (Reach.next
          (Reach.next (Reach.next first_call (lock event "10.0.0.7" refl refl refl))
            (opened "10.0.0.7" refl refl))
          (write "10.0.0.7" "" "10.0.0.7\n" "" refl refl))
        (wrote "10.0.0.7" "10.0.0.7\n" refl refl))
      (close "10.0.0.7" "10.0.0.7\n" (ok tt) (ok tt) refl refl)

file_in_lines_example :
    (second.file ≡ lines_of "{}\n" second.returned) × All IsWhole second.returned
file_in_lines_example = file_in_lines marshal "{}\n" second second_call refl
