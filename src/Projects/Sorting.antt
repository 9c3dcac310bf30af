-- ===== src/Projects/Sorting.antt =====
-- projects.py, `_discover`: lists whose items differ in a text, and what a sort and a selection keep.
use agent_app_server.Base.{
  ◌≡◌, refl, ◌∙◌, Bool, true, false, ◌||◌, List, [], ◌∷◌, ◌++◌, select, arith, All, Bool-cases, inl,
  inr, ite,
}
use agent_app_server.Tenancy.{Text, Text-discrete}
use agent_app_server.Projects.Registry.{insert_sorted, sorted, in_order}

module _ {A : Type 0} (f : A → Text) where
  -- Whether an item has the text.
  unfoldable pub occurs : Text → List A → Bool
  occurs k [] = false
  occurs k (x ∷ xs) = ite (Text-discrete (f x) k) true (occurs k xs)

  -- No two items have the same text.
  abbrev pub AreDistinct : List A → Type 0
  AreDistinct [] = Unit
  AreDistinct (x ∷ xs) = (occurs (f x) xs ≡ false) × AreDistinct xs

  pub occurs-append :
      (k : Text) (xs ys : List A) → occurs k (xs ++ ys) ≡ (occurs k xs || occurs k ys)
  unfolding occurs
  occurs-append k [] ys = refl
  occurs-append k (x ∷ xs) ys = ground (arith, occurs-append k xs ys)

  occurs-select :
      (test : A → Bool) (k : Text) (xs : List A)
      → occurs k xs ≡ false
      → occurs k (select test xs) ≡ false
  unfolding occurs
  occurs-select test k [] h = refl
  occurs-select test k (x ∷ xs) h = ground (arith, occurs-select test k xs)

  pub select-AreDistinct :
      (test : A → Bool) (xs : List A) → AreDistinct xs → AreDistinct (select test xs)
  select-AreDistinct test [] d = tt
  select-AreDistinct test (x ∷ xs) d = elim (Bool-cases (test x)) [
    | inl yes_x ↦ rw yes_x (occurs-select test (f x) xs d.0, select-AreDistinct test xs d.1)
    | inr no_x ↦ rw no_x (select-AreDistinct test xs d.1)
  ]

  pub append-AreDistinct :
      (xs ys : List A)
      → AreDistinct xs
      → AreDistinct ys
      → All (λ x. occurs (f x) ys ≡ false) xs
      → AreDistinct (xs ++ ys)
  append-AreDistinct [] ys dx dy apart = dy
  append-AreDistinct (x ∷ xs) ys dx dy apart =
      (ground (arith, occurs-append (f x) xs ys), append-AreDistinct xs ys dx.1 dy apart.1)

  module _ (name_of : A → Text) (casefold : Text → Text) where
    occurs-insert :
        (k : Text) (x : A) (xs : List A)
        → occurs k (insert_sorted name_of casefold x xs)
          ≡ ite (Text-discrete (f x) k) true (occurs k xs)
    unfolding occurs insert_sorted
    occurs-insert k x [] = refl
    occurs-insert k x (y ∷ ys) = elim (Bool-cases (in_order casefold (name_of x) (name_of y))) [
      | inl before ↦ rw (before, occurs) refl
      | inr after ↦ rw (after, occurs) (ground (arith, occurs-insert k x ys))
    ]

    pub occurs-sorted :
        (k : Text) (xs : List A) → occurs k (sorted name_of casefold xs) ≡ occurs k xs
    unfolding occurs sorted
    occurs-sorted k [] = refl
    occurs-sorted k (x ∷ xs) =
        ground (arith, occurs-insert k x (sorted name_of casefold xs), occurs-sorted k xs)

    insert-AreDistinct :
        (x : A) (xs : List A)
        → occurs (f x) xs ≡ false
        → AreDistinct xs
        → AreDistinct (insert_sorted name_of casefold x xs)
    unfolding occurs insert_sorted
    insert-AreDistinct x [] new d = (refl, tt)
    insert-AreDistinct x (y ∷ ys) new d =
        elim (Bool-cases (in_order casefold (name_of x) (name_of y))) [
          | inl before ↦ rw before (new, d)
          | inr after ↦
              rw after (
                ground (arith, occurs-insert (f y) x ys),
                insert-AreDistinct x ys (ground arith) d.1,
              )
        ]

    pub sorted-AreDistinct :
        (xs : List A) → AreDistinct xs → AreDistinct (sorted name_of casefold xs)
    unfolding sorted
    sorted-AreDistinct [] d = tt
    sorted-AreDistinct (x ∷ xs) d =
        insert-AreDistinct x (sorted name_of casefold xs) (occurs-sorted (f x) xs ∙ d.0)
          (sorted-AreDistinct xs d.1)

    insert-All :
        (P : A → Type 0) (x : A) (xs : List A)
        → P x
        → All P xs
        → All P (insert_sorted name_of casefold x xs)
    unfolding insert_sorted
    insert-All P x [] px h = (px, tt)
    insert-All P x (y ∷ ys) px h = elim (Bool-cases (in_order casefold (name_of x) (name_of y))) [
      | inl before ↦ rw before (px, h)
      | inr after ↦ rw after (h.0, insert-All P x ys px h.1)
    ]

    pub sorted-All : (P : A → Type 0) (xs : List A) → All P xs → All P (sorted name_of casefold xs)
    unfolding sorted
    sorted-All P [] h = tt
    sorted-All P (x ∷ xs) h = insert-All P x (sorted name_of casefold xs) h.0 (sorted-All P xs h.1)
