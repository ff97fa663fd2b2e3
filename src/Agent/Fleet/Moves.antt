-- ===== src/Agent/Fleet/Moves.antt =====
-- Lists of metrics that workers, the server and the lost ones hand on to each other, up to their order.
use golectra.Ports.Batch.{prepend}
use golectra.MetricsService.{valid_items}
use golectra.Domain.{Metrics}
use golectra.Base.{none, some, Option, ◌∙◌, ap, refl, ◌≡◌, [], ◌∷◌, sym, ◌++◌, List}
use golectra.Agent.Fleet.{singly, sending, Hand, all_items}
use golectra.Agent.Accounting.{append_nil}
use mathlib.Core.List.{append_assoc, Permᴰ}
use mathlib.Core.List.Permᴰ

exchange : {A : Type 0} (xs ys zs : List A) → Permᴰ (xs ++ (ys ++ zs)) (ys ++ (xs ++ zs))
exchange [] ys zs = Permᴰ.refl (ys ++ zs)
exchange (x ∷ xs) ys zs =
    Permᴰ.trans (Permᴰ.cons refl (exchange xs ys zs)) (Permᴰ.symm (Permᴰ.middle x ys (xs ++ zs)))

comm : {A : Type 0} (xs ys : List A) → Permᴰ (xs ++ ys) (ys ++ xs)
comm xs ys =
    Permᴰ.trans (Permᴰ.append_left xs (Permᴰ.symm (Permᴰ.append-nil ys)))
      (Permᴰ.trans (exchange xs ys []) (Permᴰ.append_left ys (Permᴰ.append-nil xs)))

-- What workers still have to send, what the server stored and what was lost, when metrics move.
module _ {A : Type 0} (items stored lost : List A) where
  pub taken_perm :
      (left taken repeated : List A)
      → Permᴰ (stored ++ (lost ++ left)) (taken ++ repeated)
      → Permᴰ (stored ++ (lost ++ (items ++ left))) ((taken ++ items) ++ repeated)
  taken_perm left taken repeated p = rw (append_assoc taken items repeated) (
      Permᴰ.trans (Permᴰ.append_left stored (exchange lost items left)) (
        Permᴰ.trans (exchange stored items (lost ++ left))
          (Permᴰ.trans (Permᴰ.append_left items p) (exchange items taken repeated))))

  pub stored_perm :
      (before left all : List A)
      → Permᴰ before (items ++ left)
      → Permᴰ (stored ++ (lost ++ before)) all
      → Permᴰ ((stored ++ items) ++ (lost ++ left)) all
  stored_perm before left all moved p = rw (append_assoc stored items (lost ++ left)) (
      Permᴰ.trans
        (Permᴰ.append_left stored
          (Permᴰ.trans (exchange items lost left) (Permᴰ.append_left lost (Permᴰ.symm moved))))
        p)

  pub lost_perm :
      (before left all : List A)
      → Permᴰ before (items ++ left)
      → Permᴰ (stored ++ (lost ++ before)) all
      → Permᴰ (stored ++ ((lost ++ items) ++ left)) all
  lost_perm before left all moved p =
      rw (append_assoc lost items left)
        (Permᴰ.trans (Permᴰ.append_left stored (Permᴰ.append_left lost (Permᴰ.symm moved))) p)

  pub repeated_perm :
      (left taken repeated : List A)
      → Permᴰ (stored ++ (lost ++ left)) (taken ++ repeated)
      → Permᴰ ((stored ++ items) ++ (lost ++ left)) (taken ++ (repeated ++ items))
  repeated_perm left taken repeated p = rw (append_assoc stored items (lost ++ left)) (
      Permᴰ.trans (exchange stored items (lost ++ left)) (
        Permᴰ.trans (Permᴰ.append_left items p) (
          Permᴰ.trans (exchange items taken repeated)
            (Permᴰ.append_left taken (comm items repeated)))))

module _ {F : Type 0} where
  pub all_items-append_one :
      (xs : List (List (Metrics F))) (b : List (Metrics F))
      → all_items (xs ++ b ∷ []) ≡ all_items xs ++ valid_items b
  unfolding all_items
  all_items-append_one [] b = append_nil (valid_items b)
  all_items-append_one (x ∷ xs) b =
      ap (λ l. valid_items x ++ l) (all_items-append_one xs b)
      ∙ sym (append_assoc (valid_items x) (all_items xs) (valid_items b))

  prepend-append : (o : Option (Metrics F)) (l : List (Metrics F)) → prepend o l ≡ prepend o [] ++ l
  prepend-append none l = refl
  prepend-append (some m) l = refl

  valid_items-append :
      (m : Metrics F) (l : List (Metrics F))
      → valid_items (m ∷ l) ≡ valid_items (m ∷ []) ++ valid_items l
  unfolding valid_items
  valid_items-append m l = prepend-append _ (valid_items l)

  abbrev pub hand_items : Hand F → List (Metrics F)
  hand_items (sending batch) = valid_items batch
  hand_items (singly batch) = valid_items batch

  abbrev pub left_items : List (Hand F) → List (Metrics F)
  left_items [] = []
  left_items (h ∷ hs) = hand_items h ++ left_items hs

  -- one hand among the others
  pub left_items-perm :
      (before after : List (Hand F)) (h : Hand F)
      → Permᴰ (left_items (before ++ h ∷ after)) (hand_items h ++ left_items (before ++ after))
  left_items-perm [] after h = Permᴰ.refl _
  left_items-perm (b ∷ before) after h =
      Permᴰ.trans (Permᴰ.append_left (hand_items b) (left_items-perm before after h))
        (exchange (hand_items b) (hand_items h) (left_items (before ++ after)))

  -- a hand that has one metric less
  pub left_items-perm_one :
      (before after : List (Hand F)) (m : Metrics F) (left : List (Metrics F))
      → Permᴰ
          (left_items (before ++ singly (m ∷ left) ∷ after))
          (valid_items (m ∷ []) ++ left_items (before ++ singly left ∷ after))
  left_items-perm_one before after m left =
      Permᴰ.trans (left_items-perm before after (singly (m ∷ left))) (
        rw
          (
            valid_items-append m left,
            append_assoc (valid_items (m ∷ [])) (valid_items left) (left_items (before ++ after)),
          )
          (Permᴰ.append_left (valid_items (m ∷ []))
            (Permᴰ.symm (left_items-perm before after (singly left)))))

  -- a hand that goes on in another way
  pub left_items-perm_same :
      (before after : List (Hand F)) (batch : List (Metrics F))
      → Permᴰ
          (left_items (before ++ sending batch ∷ after))
          (left_items (before ++ singly batch ∷ after))
  left_items-perm_same before after batch =
      Permᴰ.trans (left_items-perm before after (sending batch))
        (Permᴰ.symm (left_items-perm before after (singly batch)))
