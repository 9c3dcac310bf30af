-- ===== src/Hub/Delivery.antt =====
-- event_hub.py, `publish`: what the loop over the subscribers does to each subscription.
use agent_app_server.Base.{
  ℕ, ◌≡◌, refl, Bool, true, false, ◌&&◌, Option, none, some, List, [], ◌∷◌, arith, ite, ℕ_discrete,
  length, if◌then◌else◌, ltb, Option-cases, inl, inr,
}
use agent_app_server.Base.Dict
use agent_app_server.Base.Dict.{Dict, get-put}
use agent_app_server.Hub.{EventEnvelope, Subscription, deliver, deliver_one, deliver_all, discard}

-- Membership among the numbers of subscriptions, as a test.
abbrev pub has : ℕ → List ℕ → Bool
has i [] = false
has i (j ∷ js) = ite (ℕ_discrete j i) true (has i js)

abbrev pub IsDistinct : List ℕ → Type 0
IsDistinct [] = Unit
IsDistinct (i ∷ is) = (has i is ≡ false) × IsDistinct is

module _ {D : Type 0} where
  abbrev pub deliver? : ℕ → EventEnvelope D → Option (Subscription D) → Option (Subscription D)
  deliver? limit e none = none
  deliver? limit e (some s) = some (deliver limit e s)

  abbrev pub has_room : ℕ → Option (Subscription D) → Bool
  has_room limit none = true
  has_room limit (some s) = ltb (length s.queue) limit

  get-deliver_one :
      (limit : ℕ) (e : EventEnvelope D) (i j : ℕ) (heap : Dict ℕ (Subscription D))
      → Dict.get ℕ_discrete (deliver_one limit e i heap).1 j
        ≡ ite
            (ℕ_discrete i j)
            (deliver? limit e (Dict.get ℕ_discrete heap i))
            (Dict.get ℕ_discrete heap j)
  unfolding deliver_one
  get-deliver_one limit e i j heap = elim (Option-cases (Dict.get ℕ_discrete heap i)) [
    | inl missing ↦ ground arith
    | inr (s, found) ↦
        rw (found, deliver_one) (ground (arith, get-put ℕ_discrete heap i j (deliver limit e s)))
  ]

  stays-deliver_one :
      (limit : ℕ) (e : EventEnvelope D) (i : ℕ) (heap : Dict ℕ (Subscription D))
      → (deliver_one limit e i heap).0 ≡ has_room limit (Dict.get ℕ_discrete heap i)
  unfolding deliver_one
  stays-deliver_one limit e i heap = ground arith

  -- Every subscriber gets the event once, and nothing else in the heap changes.
  pub get-deliver_all :
      (limit : ℕ) (e : EventEnvelope D) (is : List ℕ) (heap : Dict ℕ (Subscription D)) (j : ℕ)
      → IsDistinct is
      → Dict.get ℕ_discrete (deliver_all limit e is heap).1 j ≡ (
          if has j is
          then deliver? limit e (Dict.get ℕ_discrete heap j)
          else Dict.get ℕ_discrete heap j)
  unfolding deliver_all
  get-deliver_all limit e [] heap j d = refl
  get-deliver_all limit e (i ∷ is) heap j d = ground (
    arith,
    get-deliver_all limit e is (deliver_one limit e i heap).1 j d.1,
    get-deliver_one limit e i j heap,
  )

  -- The subscribers that stay are those with room.
  pub kept-deliver_all :
      (limit : ℕ) (e : EventEnvelope D) (is : List ℕ) (heap : Dict ℕ (Subscription D)) (j : ℕ)
      → IsDistinct is
      → has j (deliver_all limit e is heap).0
        ≡ (has j is && has_room limit (Dict.get ℕ_discrete heap j))
  unfolding deliver_all
  kept-deliver_all limit e [] heap j d = refl
  kept-deliver_all limit e (i ∷ is) heap j d = ground (
    arith,
    kept-deliver_all limit e is (deliver_one limit e i heap).1 j d.1,
    get-deliver_one limit e i j heap,
    stays-deliver_one limit e i heap,
  )

  pub kept-IsDistinct :
      (limit : ℕ) (e : EventEnvelope D) (is : List ℕ) (heap : Dict ℕ (Subscription D))
      → IsDistinct is
      → IsDistinct (deliver_all limit e is heap).0
  unfolding deliver_all
  kept-IsDistinct limit e [] heap d = tt
  kept-IsDistinct limit e (i ∷ is) heap d = ground (
    arith,
    kept-IsDistinct limit e is (deliver_one limit e i heap).1 d.1,
    kept-deliver_all limit e is (deliver_one limit e i heap).1 i d.1,
  )

pub has-discard :
    (i j : ℕ) (is : List ℕ)
    → IsDistinct is
    → has j (discard i is) ≡ ite (ℕ_discrete i j) false (has j is)
unfolding discard
has-discard i j [] d = ground arith
has-discard i j (k ∷ is) d = ground (arith, has-discard i j is d.1)

pub discard-IsDistinct : (i : ℕ) (is : List ℕ) → IsDistinct is → IsDistinct (discard i is)
unfolding discard
discard-IsDistinct i [] d = tt
discard-IsDistinct i (k ∷ is) d =
    ground (arith, discard-IsDistinct i is d.1, has-discard i k is d.1)
