-- ===== src/Turns/Status.antt =====
-- turn_manager.py, `status`: the report that one tenant, or the operator, sees.
use agent_app_server.Base.{
  ℕ, ◌≡◌, refl, Bool, true, false, Option, none, some, List, [], ◌∷◌, arith, String,
  String-discrete, select, length, holds, Bool-cases, inl, inr, ◌≢◌, ◌∙◌,
}
use agent_app_server.Base.Dict
use agent_app_server.Base.Dict.{Dict, values, get-put, get-none}
use agent_app_server.Keys.{Key, Key-discrete}
use agent_app_server.Turns.{TurnManager, ActiveTurn, TurnKind, current}
use agent_app_server.Turns.Updates.{key_of}
use agent_app_server.Turns.Invariant.{IsSound}

pub record TurnView : Type 0 where
  pub status : String
  pub kind : TurnKind
  pub turn_id : Option String
  pub model : Option String
  pub reasoning_effort : Option String

pub record Status : Type 0 where
  pub accepting_turns : Bool
  pub active_turn_count : ℕ
  pub active_threads : Dict String TurnView

abbrev pub view : ActiveTurn → TurnView
view t = record {
  status = t.status;
  kind = t.kind;
  turn_id = t.turn_id;
  model = t.model;
  reasoning_effort = t.reasoning_effort;
}

-- `active.owner_id == owner_id`
abbrev pub same_owner : Option String → Option String → Bool
same_owner none none = true
same_owner (some a) (some b) = holds (String-discrete a b)
same_owner _ _ = false

-- `owner_id is None or active.owner_id == owner_id`
abbrev pub is_listed : Option String → ActiveTurn → Bool
is_listed none t = true
is_listed (some owner_id) t = same_owner t.owner_id (some owner_id)

-- The dictionary comprehension over the listed turns: a later turn of the same thread name wins.
unfoldable pub threads_of : Dict String TurnView → List ActiveTurn → Dict String TurnView
threads_of acc [] = acc
threads_of acc (t ∷ ts) = threads_of (Dict.put String-discrete acc t.thread_id (view t)) ts

pub status : TurnManager → Option String → Status
unfolding threads_of
status m owner_id =
    let active_turns = select (is_listed owner_id) (values m.active) in
    record {
      accepting_turns = m.accepting_turns;
      active_turn_count = length active_turns;
      active_threads = threads_of [] active_turns;
    }

-- An entry of the report, where the manager has one.
abbrev pub viewed : Option ActiveTurn → Option TurnView → Option TurnView
viewed none other = other
viewed (some t) other = some (view t)

abbrev tenant_key : String → String → Key
tenant_key owner thread = record { owner_id = some owner; thread_id = thread }

-- Every entry of the dictionary stands under its own key.
abbrev OwnKeys : Dict Key ActiveTurn → Type 0
OwnKeys d = (k : Key) (t : ActiveTurn) → Dict.get Key-discrete d k ≡ some t → key_of t ≡ k

OwnKeys-tail :
    (j : Key) (t : ActiveTurn) (d : Dict Key ActiveTurn)
    → Dict.IsUnique Key-discrete ((j, t) ∷ d)
    → OwnKeys ((j, t) ∷ d)
    → OwnKeys d
unfolding Dict.get
OwnKeys-tail j t d u own k v e = ground (arith, own k v, Dict.contains-get Key-discrete d k v e)

get_head :
    (j : Key) (t : ActiveTurn) (d : Dict Key ActiveTurn)
    → Dict.get Key-discrete ((j, t) ∷ d) j ≡ some t
unfolding Dict.get
get_head j t d = ground arith

is_listed_lem :
    (owner : String) (t : ActiveTurn)
    → (is_listed (some owner) t ≡ true → t.owner_id ≡ some owner)
      × (is_listed (some owner) t ≡ false → t.owner_id ≢ some owner)
is_listed_lem owner t = ground arith

module _ (owner thread : String) where
  module _ (j : Key) (t : ActiveTurn) (d : Dict Key ActiveTurn) (acc : Dict String TurnView)
      (unique : Dict.contains Key-discrete d j ≡ false) (own : key_of t ≡ j) where
    -- The head of the dictionary adds its entry, if it is the owner's.
    viewed_listed :
        t.owner_id ≡ some owner
        → viewed
            (Dict.get Key-discrete d (tenant_key owner thread))
            (Dict.get String-discrete (Dict.put String-discrete acc t.thread_id (view t)) thread)
          ≡ viewed
              (Dict.get Key-discrete ((j, t) ∷ d) (tenant_key owner thread))
              (Dict.get String-discrete acc thread)
    unfolding Dict.get
    viewed_listed e = ground (
      arith,
      get-put String-discrete acc t.thread_id thread (view t),
      get-none Key-discrete d j unique,
    )

    viewed_other :
        t.owner_id ≢ some owner
        → viewed
            (Dict.get Key-discrete d (tenant_key owner thread))
            (Dict.get String-discrete acc thread)
          ≡ viewed
              (Dict.get Key-discrete ((j, t) ∷ d) (tenant_key owner thread))
              (Dict.get String-discrete acc thread)
    unfolding Dict.get
    viewed_other ne = ground arith

  pub get-threads_of :
      (d : Dict Key ActiveTurn) (acc : Dict String TurnView)
      → Dict.IsUnique Key-discrete d
      → OwnKeys d
      → Dict.get String-discrete
          (threads_of acc (select (is_listed (some owner)) (values d)))
          thread
        ≡ viewed
            (Dict.get Key-discrete d (tenant_key owner thread))
            (Dict.get String-discrete acc thread)
  unfolding threads_of
  get-threads_of [] acc u own = unfold Dict.get in refl
  get-threads_of ((j, t) ∷ d) acc u own =
      let rest = OwnKeys-tail j t d u own in
      let key_j = own j t (get_head j t d) in
      let added = Dict.put String-discrete acc t.thread_id (view t) in
      elim (Bool-cases (is_listed (some owner) t)) [
        | inl listed ↦ rw listed (
            get-threads_of d added u.1 rest
            ∙ viewed_listed j t d acc u.0 key_j ((is_listed_lem owner t).0 listed))
        | inr other ↦ rw other (
            get-threads_of d acc u.1 rest
            ∙ viewed_other j t d acc u.0 key_j ((is_listed_lem owner t).1 other))
      ]

-- What a tenant is told of a thread is exactly the manager's entry of that tenant and thread: none
-- of its own turns is missing and none of another tenant's is shown.
pub status_own :
    (m : TurnManager) (owner thread : String)
    → IsSound m
    → Dict.get String-discrete (status m (some owner)).active_threads thread
      ≡ viewed (current m (tenant_key owner thread)) none
unfolding status current
status_own m owner thread s =
    get-threads_of owner thread m.active [] s.unique_active s.owned ∙ unfold Dict.get in refl
