-- ===== src/Audit/Lines/Whole.antt =====
-- The lines of the audit file.
use golectra.Persistence.{first_error, wrapped}
use golectra.Domain.{err, ok, Result}
use golectra.MetricsService.{Event}
use golectra.Audit.Lines.{
  text_append, line, Stage, opening, writing, closing, Call, Log, start, call_of, Step, Reach, lock,
  opened, open_failed, write, wrote, write_failed, close,
}
use golectra.Base.{
  ap, ◌∙◌, sym, refl, none, subst, [], ◌∷◌, some, ◌≡◌, ◌++◌, List, String, Option, All,
}
use text.Mathlib.TextLemmas.{nil-append, append-nil, append_assoc}

-- what the calls that have returned left in a file
abbrev pub lines_of : String → List Call → String
lines_of file [] = file
lines_of file (c ∷ calls) = lines_of (text_append file c.written) calls

-- what the holder has written
abbrev pub part_of : Option (String × Stage) → String
part_of none = ""
part_of (some (payload, opening)) = ""
part_of (some (payload, writing before after)) = before
part_of (some (payload, closing before r)) = before

-- The line of a call without an error is whole; of another one, some beginning of it is there.
pub record IsWhole (c : Call) : Type 0 where
  pub begun : (rest : String) × (text_append c.written rest ≡ line c.payload)
  pub whole : c.answer ≡ ok tt → c.written ≡ line c.payload

abbrev Holds : Option (String × Stage) → Type 0
Holds none = Unit
Holds (some (payload, opening)) = Unit
Holds (some (payload, writing before after)) = text_append before after ≡ line payload
Holds (some (payload, closing before r)) =
    ((rest : String) × (text_append before rest ≡ line payload))
    × (r ≡ ok tt → before ≡ line payload)

record IsInv (file : String) (s : Log) : Type 0 where
  contents : s.file ≡ text_append (lines_of file s.returned) (part_of s.holder)
  all_whole : All IsWhole s.returned
  held : Holds s.holder

lines_of-append :
    (file : String) (calls : List Call) (c : Call)
    → lines_of file (calls ++ c ∷ []) ≡ text_append (lines_of file calls) c.written
lines_of-append file [] c = refl
lines_of-append file (d ∷ calls) c = lines_of-append (text_append file d.written) calls c

one_more :
    (calls : List Call) (c : Call) → All IsWhole calls → IsWhole c → All IsWhole (calls ++ c ∷ [])
one_more [] c h p = (p, tt)
one_more (d ∷ calls) c h p = (h.0, one_more calls c h.1 p)

contents_with :
    (x file : String) (calls : List Call) (c : Call)
    → x ≡ text_append (lines_of file calls) c.written
    → x ≡ text_append (lines_of file (calls ++ c ∷ [])) ""
contents_with x file calls c e =
    e ∙ sym (lines_of-append file calls c) ∙ sym (append-nil (lines_of file (calls ++ c ∷ [])))

first_error-ok : (r c : Result (Unit {0})) → first_error r c ≡ ok tt → r ≡ ok tt
first_error-ok (ok u) c k = refl
first_error-ok (err e) c k = k

module _ {marshal : Event → Result String} {file : String} where
  Step-IsInv : {s t : Log} → Step marshal s t → IsInv file s → IsInv file t
  Step-IsInv {s} {t} (lock evt payload m free same) v =
      subst (IsInv file) (sym same)
        (record { contents = rw free at v.contents; all_whole = v.all_whole; held = tt })
  Step-IsInv {s} {t} (opened payload e same) v = subst (IsInv file) (sym same) (record {
    contents = rw e at v.contents;
    all_whole = v.all_whole;
    held = nil-append (line payload);
  })
  Step-IsInv {s} {t} (open_failed payload x e same) v = subst (IsInv file) (sym same) (record {
    contents =
        contents_with s.file file s.returned
          (call_of payload "" (wrapped "open audit file" (err x))) (rw e at v.contents);
    all_whole =
        one_more s.returned _ v.all_whole
          (record { begun = (line payload, nil-append (line payload)); whole = λ k. cc k });
    held = tt;
  })
  Step-IsInv {s} {t} (write payload before part after e same) v =
      subst (IsInv file) (sym same) (record {
        contents =
            ap (λ x. text_append x part) (rw e at v.contents)
            ∙ append_assoc (lines_of file s.returned) before part;
        all_whole = v.all_whole;
        held = append_assoc before part after ∙ (rw e at v.held);
      })
  Step-IsInv {s} {t} (wrote payload before e same) v = subst (IsInv file) (sym same) (record {
    contents = (rw e at v.contents);
    all_whole = v.all_whole;
    held = (("", (rw e at v.held)), λ k. sym (append-nil before) ∙ (rw e at v.held));
  })
  Step-IsInv {s} {t} (write_failed payload before after x e same) v =
      subst (IsInv file) (sym same) (record {
        contents = (rw e at v.contents);
        all_whole = v.all_whole;
        held = ((after, (rw e at v.held)), λ k. cc k);
      })
  Step-IsInv {s} {t} (close payload before so_far closed e same) v =
      subst (IsInv file) (sym same) (record {
        contents =
            contents_with s.file file s.returned
              (call_of payload before (first_error so_far (wrapped "close audit file" closed)))
              (rw e at v.contents);
        all_whole = one_more s.returned _ v.all_whole (
            let h = rw e at v.held in
            record {
              begun = h.0;
              whole = λ k. h.1 (first_error-ok so_far (wrapped "close audit file" closed) k);
            });
        held = tt;
      })

  Reach-IsInv : {s t : Log} → IsInv file s → Reach marshal s t → IsInv file t
  Reach-IsInv v Reach.here = v
  Reach-IsInv v (Reach.next h st) = Step-IsInv st (Reach-IsInv v h)

start-IsInv : (file : String) → IsInv file (start file)
start-IsInv file = record { contents = sym (append-nil file); all_whole = tt; held = tt }

-- However many goroutines call Notify and whatever fails: when none holds the lock, the audit file is
-- what it was with the lines of the calls that have returned after it, one after the other and each in
-- one piece. The line of a call that answered no error is complete; of any other call a beginning of
-- its line is there.
pub file_in_lines :
    (marshal : Event → Result String) (file : String) (s : Log)
    → Reach marshal (start file) s
    → s.holder ≡ none
    → (s.file ≡ lines_of file s.returned) × All IsWhole s.returned
file_in_lines marshal file s r free =
    let v = Reach-IsInv {marshal = marshal} (start-IsInv file) r in
    ((rw free at v.contents) ∙ append-nil (lines_of file s.returned), v.all_whole)
