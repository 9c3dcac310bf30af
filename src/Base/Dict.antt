-- ===== src/Base/Dict.antt =====
-- Python's `dict` and `set` over keys whose equality is decided: insertion order is kept, and a key
-- stands at most once.
use mathlib.Core.Path.{◌≡◌, refl}
use mathlib.Core.Logic.{ite}
use mathlib.Core.Bool.{Bool, true, false}
use mathlib.Core.Option.{Option, none, some}
use mathlib.Core.List.{List, [], ◌∷◌}
use native.Mathlib.Omega.{arith}

abbrev pub Dict : Type 0 → Type 0 → Type 0
Dict K V = List (K × V)

-- `d.values()`
abbrev pub values : {K V : Type 0} → Dict K V → List V
values [] = []
values ((k, v) ∷ d) = v ∷ values d

module _ {K : Type 0} (dec : Discrete K) {V : Type 0} where
  -- `d.get(k)`
  unfoldable pub get : Dict K V → K → Option V
  get [] k = none
  get ((j, v) ∷ d) k = ite (dec j k) (some v) (get d k)

  -- `k in d`
  unfoldable pub contains : Dict K V → K → Bool
  contains [] k = false
  contains ((j, v) ∷ d) k = ite (dec j k) true (contains d k)

  -- `d[k] = v`: in place where the key is there, else at the end.
  unfoldable pub put : Dict K V → K → V → Dict K V
  put [] k v = (k, v) ∷ []
  put ((j, w) ∷ d) k v = ite (dec j k) ((j, v) ∷ d) ((j, w) ∷ put d k v)

  -- `d.pop(k, None)`
  unfoldable pub pop : Dict K V → K → Dict K V
  pop [] k = []
  pop ((j, v) ∷ d) k = ite (dec j k) d ((j, v) ∷ pop d k)

  -- No key stands twice.
  abbrev pub IsUnique : Dict K V → Type 0
  IsUnique [] = Unit
  IsUnique ((j, v) ∷ d) = (contains d j ≡ false) × IsUnique d

  pub get-put :
      (d : Dict K V) (k j : K) (v : V) → get (put d k v) j ≡ ite (dec k j) (some v) (get d j)
  unfolding get put
  get-put [] k j v = refl
  get-put ((i, w) ∷ d) k j v = ground (arith, get-put d k j v)

  pub contains-put :
      (d : Dict K V) (k j : K) (v : V) → contains (put d k v) j ≡ ite (dec k j) true (contains d j)
  unfolding contains put
  contains-put [] k j v = refl
  contains-put ((i, w) ∷ d) k j v = ground (arith, contains-put d k j v)

  pub contains-pop :
      (d : Dict K V) (k j : K)
      → IsUnique d
      → contains (pop d k) j ≡ ite (dec k j) false (contains d j)
  unfolding contains pop
  contains-pop [] k j u = ground arith
  contains-pop ((i, w) ∷ d) k j u = ground (arith, contains-pop d k j u.1)

  pub get-none : (d : Dict K V) (k : K) → contains d k ≡ false → get d k ≡ none
  unfolding get contains
  get-none [] k h = refl
  get-none ((i, w) ∷ d) k h = ground (arith, get-none d k)

  pub get-pop :
      (d : Dict K V) (k j : K) → IsUnique d → get (pop d k) j ≡ ite (dec k j) none (get d j)
  unfolding get pop
  get-pop [] k j u = ground arith
  get-pop ((i, w) ∷ d) k j u = ground (arith, get-pop d k j u.1, get-none d j)

  pub put-IsUnique : (d : Dict K V) (k : K) (v : V) → IsUnique d → IsUnique (put d k v)
  unfolding put contains
  put-IsUnique [] k v u = (refl, tt)
  put-IsUnique ((i, w) ∷ d) k v u = ground (arith, put-IsUnique d k v u.1, contains-put d k i v)

  pub pop-IsUnique : (d : Dict K V) (k : K) → IsUnique d → IsUnique (pop d k)
  unfolding pop contains
  pop-IsUnique [] k u = tt
  pop-IsUnique ((i, w) ∷ d) k u = ground (arith, pop-IsUnique d k u.1, contains-pop d k i u.1)

  pub contains-get : (d : Dict K V) (k : K) (v : V) → get d k ≡ some v → contains d k ≡ true
  unfolding get contains
  contains-get [] k v e = cc
  contains-get ((i, w) ∷ d) k v e = ground (arith, contains-get d k v)

  pub contains-none : (d : Dict K V) (k : K) → get d k ≡ none → contains d k ≡ false
  unfolding get contains
  contains-none [] k e = refl
  contains-none ((i, w) ∷ d) k e = ground (arith, contains-none d k)
