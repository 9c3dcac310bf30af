-- ===== src/Journal/Grouping.antt =====
-- stream_journal.py: the dictionary of turns against the list that it was built from.
use mathlib.Core.List.{append_assoc, append-nil}
use agent_app_server.Base.{
  ◌≡◌, refl, ap, ◌∙◌, Bool, true, false, Option, none, some, List, [], ◌∷◌, ◌++◌, arith, ite,
  String, String-discrete, if◌then◌else◌, all, select, holds,
}
use agent_app_server.Base.Dict
use agent_app_server.Base.Dict.{Dict, values, get-put, put-IsUnique}
use agent_app_server.Json.{Fields}
use agent_app_server.Journal.{one_of}
use agent_app_server.Journal.Lifecycle.{
  turn_id_of, add_to_turn, group_turns, has_boundaries, is_stream, complete_turns,
  complete_stream_turn_ids,
}

abbrev pub names_turn : String → Option String → Bool
names_turn t none = false
names_turn t (some s) = holds (String-discrete s t)

-- Whether an event is of the turn `t`.
pub of_turn : String → Fields → Bool
of_turn t event = names_turn t (turn_id_of event)

-- A turn's list, and what comes after it.
abbrev pub grown : Option (List Fields) → List Fields → Option (List Fields)
grown none [] = none
grown none (e ∷ es) = some (e ∷ es)
grown (some es) more = some (es ++ more)

grown-grown :
    (o : Option (List Fields)) (e : Fields) (es : List Fields)
    → grown (some (elim o [ none ↦ [] | some xs ↦ xs ] ++ e ∷ [])) es ≡ grown o (e ∷ es)
grown-grown none e es = refl
grown-grown (some xs) e es = ground (arith, append_assoc xs (e ∷ []) es)

get-add_to_turn :
    (turns : Dict String (List Fields)) (t s : String) (e : Fields)
    → Dict.get String-discrete (add_to_turn turns t e) s
      ≡ ite
          (String-discrete t s)
          (some (elim (Dict.get String-discrete turns t) [ none ↦ [] | some xs ↦ xs ] ++ e ∷ []))
          (Dict.get String-discrete turns s)
unfolding add_to_turn
get-add_to_turn turns t s e = get-put String-discrete turns t s _

get-group_step :
    (turns : Dict String (List Fields)) (o : Option String) (s : String) (e : Fields)
    (more : List Fields)
    → grown
        (Dict.get String-discrete (elim o [ none ↦ turns | some t ↦ add_to_turn turns t e ]) s)
        more
      ≡ grown (Dict.get String-discrete turns s) (if names_turn s o then e ∷ more else more)
get-group_step turns none s e more = refl
get-group_step turns (some t) s e more =
    ground
      (arith, get-add_to_turn turns t s e, grown-grown (Dict.get String-discrete turns t) e more)

grown-nil : (o : Option (List Fields)) → o ≡ grown o []
grown-nil none = refl
grown-nil (some es) = rw append-nil

-- Under a turn's key stand its events, in order.
pub get-group_turns :
    (turns : Dict String (List Fields)) (events : List Fields) (s : String)
    → Dict.get String-discrete (group_turns turns events) s
      ≡ grown (Dict.get String-discrete turns s) (select (of_turn s) events)
unfolding group_turns of_turn
get-group_turns turns [] s = grown-nil (Dict.get String-discrete turns s)
get-group_turns turns (e ∷ events) s =
    get-group_turns (elim (turn_id_of e) [ none ↦ turns | some t ↦ add_to_turn turns t e ]) events s
    ∙ get-group_step turns (turn_id_of e) s e (select (λ x. names_turn s (turn_id_of x)) events)

add_to_turn-IsUnique :
    (turns : Dict String (List Fields)) (o : Option String) (e : Fields)
    → Dict.IsUnique String-discrete turns
    → Dict.IsUnique String-discrete (elim o [ none ↦ turns | some t ↦ add_to_turn turns t e ])
unfolding add_to_turn
add_to_turn-IsUnique turns none e u = u
add_to_turn-IsUnique turns (some t) e u = put-IsUnique String-discrete turns t _ u

pub group_turns-IsUnique :
    (turns : Dict String (List Fields)) (events : List Fields)
    → Dict.IsUnique String-discrete turns
    → Dict.IsUnique String-discrete (group_turns turns events)
unfolding group_turns
group_turns-IsUnique turns [] u = u
group_turns-IsUnique turns (e ∷ events) u =
    group_turns-IsUnique (elim (turn_id_of e) [ none ↦ turns | some t ↦ add_to_turn turns t e ])
      events (add_to_turn-IsUnique turns (turn_id_of e) e u)

-- A test of every turn, read at one key and from all keys.
pub all-values :
    (test : List Fields → Bool) (turns : Dict String (List Fields)) (t : String)
    (events : List Fields)
    → all test (values turns) ≡ true
    → Dict.get String-discrete turns t ≡ some events
    → test events ≡ true
unfolding Dict.get
all-values test [] t events h e = cc
all-values test ((s, es) ∷ turns) t events h e = ground (arith, all-values test turns t events)

pub all-values_of_get :
    (test : List Fields → Bool) (turns : Dict String (List Fields))
    → Dict.IsUnique String-discrete turns
    → ((t : String) (events : List Fields)
        → Dict.get String-discrete turns t ≡ some events
        → test events ≡ true)
    → all test (values turns) ≡ true
unfolding Dict.get
all-values_of_get test [] u h = refl
all-values_of_get test ((s, es) ∷ turns) u h = ground (
  arith,
  h s es,
  all-values_of_get test turns u.1 (λ t events e.
      ground (arith, h t events, Dict.contains-get String-discrete turns t events e)),
)

-- `complete_turns` names exactly the keys whose events have both boundaries.
abbrev pub bounded : Option (List Fields) → Bool
bounded none = false
bounded (some events) = has_boundaries events

names-complete_turns :
    (turns : Dict String (List Fields)) (t : String)
    → Dict.IsUnique String-discrete turns
    → one_of (complete_turns turns) t ≡ bounded (Dict.get String-discrete turns t)
unfolding complete_turns Dict.get
names-complete_turns [] t u = refl
names-complete_turns ((s, events) ∷ turns) t u =
    ground (arith, names-complete_turns turns t u.1, Dict.get-none String-discrete turns s u.0)

bounded-grown : (events : List Fields) → bounded (grown none events) ≡ has_boundaries events
bounded-grown [] = refl
bounded-grown (e ∷ events) = refl

-- A turn is reported as completely streamed exactly when, among its events from the live stream,
-- there is a start and there is a terminal event.
pub complete_stream_turn_ids_lem :
    (events : List Fields) (t : String)
    → one_of (complete_stream_turn_ids events) t
      ≡ has_boundaries (select (of_turn t) (select is_stream events))
unfolding complete_stream_turn_ids Dict.get
complete_stream_turn_ids_lem events t =
    names-complete_turns (group_turns [] (select is_stream events)) t
      (group_turns-IsUnique [] (select is_stream events) tt)
    ∙ ap bounded (get-group_turns [] (select is_stream events) t)
    ∙ bounded-grown (select (of_turn t) (select is_stream events))
