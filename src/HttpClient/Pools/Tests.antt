-- ===== src/HttpClient/Pools/Tests.antt =====
-- Two payloads in flight at once, after a buffer has come back; compression puts a mark in front.
use Prim.Native.String.{◌++◌ as text_append}
use golectra.Base.{ℕ, List, [], ◌∷◌, Option, none, some, String}
use golectra.Domain.{Error}
use golectra.HttpClient.Pools.{System, start, gzip_bytes, release}

-- a pool that hands out the object that was put last
abbrev last_put : List ℕ → Option (ℕ × List ℕ)
last_put [] = none
last_put (b ∷ bs) = some (b, bs)

-- Write puts out a mark, and Close the text
abbrev begin_zip : String → String × Option Error
begin_zip s = ("z", none)

abbrev end_zip : String → String × Option Error
end_zip s = (s, none)

abbrev sent : String → System → System
sent t s = record {
  pools = (gzip_bytes last_put begin_zip end_zip t s.pools).1;
  in_flight = (0, text_append "z" t) ∷ s.in_flight;
}

abbrev first_sent : System
first_sent = sent "one" start

abbrev first_done : System
first_done = record { pools = (release (some 0) first_sent.pools).1; in_flight = [] }

abbrev second_sent : System
second_sent = sent "two" first_done
