-- ===== src/Audit/Lines.antt =====
-- Writer.Notify of internal/adapters/audit/file/writer.go, called by several goroutines: what each does
-- to the file, one call at a time. The operating system may carry out a Write in parts.
pub mod Whole
mod Tests
use golectra.Base.{List, [], ◌∷◌, ◌++◌, Option, none, some, String, ◌≡◌, ◌≢◌}
use golectra.Domain.{Error, Result, ok, err}
use golectra.MetricsService.{Event}
use golectra.Persistence.{wrapped, first_error}
use Prim.Native.String.{◌++◌ as text_append}

-- the payload and its newline
abbrev pub line : String → String
line payload = text_append payload "\n"

-- Where the goroutine that holds the lock stands: before OpenFile, in Write with the part that is in the
-- file and the part that is not, or in the deferred Close with the error so far.
pub data Stage : Type 0 where
  opening : Stage
  writing : String → String → Stage
  closing : String → Result (Unit {0}) → Stage

-- A call of Notify that has returned: its payload, what of its line is in the file, and its answer.
pub record Call : Type 0 where
  pub payload : String
  pub written : String
  pub answer : Result (Unit {0})

-- `holder` is the payload and the stage of the goroutine that holds the lock.
pub record Log : Type 0 where
  pub file : String
  pub holder : Option (String × Stage)
  pub returned : List Call

abbrev pub start : String → Log
start file = record { file = file; holder = none; returned = [] }

abbrev pub call_of : String → String → Result (Unit {0}) → Call
call_of payload written answer = record { payload = payload; written = written; answer = answer }

pub data Step (marshal : Event → Result String) (s : Log) (t : Log) : Type 0 where
  -- `w.mu.Lock()`, once the event is marshalled
  lock :
      (evt : Event) (payload : String)
      → marshal evt ≡ ok payload
      → s.holder ≡ none
      → t ≡ record s { holder = some (payload, opening) }
      → Step marshal s t
  opened :
      (payload : String)
      → s.holder ≡ some (payload, opening)
      → t ≡ record s { holder = some (payload, writing "" (line payload)) }
      → Step marshal s t
  open_failed :
      (payload : String) (e : Error)
      → s.holder ≡ some (payload, opening)
      → t ≡ record s {
        holder = none;
        returned = s.returned ++ call_of payload "" (wrapped "open audit file" (err e)) ∷ [];
      }
      → Step marshal s t
  -- some part of Write
  write :
      (payload before part after : String)
      → s.holder ≡ some (payload, writing before (text_append part after))
      → t ≡ record s {
        file = text_append s.file part;
        holder = some (payload, writing (text_append before part) after);
      }
      → Step marshal s t
  -- Write returns: all is in the file, or it gives an error
  wrote :
      (payload before : String)
      → s.holder ≡ some (payload, writing before "")
      → t ≡ record s { holder = some (payload, closing before (ok tt)) }
      → Step marshal s t
  write_failed :
      (payload before after : String) (e : Error)
      → s.holder ≡ some (payload, writing before after)
      → t
        ≡ record s { holder = some (payload, closing before (wrapped "write audit file" (err e))) }
      → Step marshal s t
  -- the deferred Close with its answer, and the deferred Unlock
  close :
      (payload before : String) (so_far closed : Result (Unit {0}))
      → s.holder ≡ some (payload, closing before so_far)
      → t ≡ record s {
        holder = none;
        returned =
            s.returned
            ++ call_of payload before (first_error so_far (wrapped "close audit file" closed)) ∷ [];
      }
      → Step marshal s t

pub data Reach (marshal : Event → Result String) (s : Log) : Log → Type 0 where
  here : Reach marshal s s
  next : {t u : Log} → Reach marshal s t → Step marshal t u → Reach marshal s u
