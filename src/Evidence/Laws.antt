-- ===== src/Evidence/Laws.antt =====
-- What evidence.py reads back after a write, and which requests it lists.
use pj_clusterintent.Prelude.{
  ℕ, String, ◌≡◌, refl, Bool, false, Option, none, some, List, [], ◌∷◌, ◌++◌, arith, str_eq, eq_iff,
  eq_refl, ◌∙◌, if◌then◌else◌, is_some, Bool-cases, inl, inr, ◌||◌, any,
}
use pj_clusterintent.Prelude.Dict
use pj_clusterintent.Prelude.Dict.{Dict, get-put, keys}
use pj_clusterintent.Prelude.Sort.{sort, insert}
use pj_clusterintent.Evidence.{
  Evidence, RequestDir, RequestRecord, RequestState, Detail, StateEvent, dir, append_event,
  record_created, read_request, read_latest_event, latest_of, or_empty, no_detail, recorded_ids,
  list_request_ids, name_le,
}

-- What the evidence of one request says: its record, and its latest event.
abbrev pub View : Type 0
View = Option (Option RequestRecord × Option StateEvent)

abbrev pub view_of : Option RequestDir → View
view_of none = none
view_of (some d) = some (d.request_json, latest_of none d.events)

unfoldable pub view : String → Evidence → View
view request_id evidence = view_of (Dict.get request_id evidence)

latest_of-append :
    (latest : Option StateEvent) (events : List StateEvent) (e : StateEvent)
    → latest_of latest (events ++ e ∷ []) ≡ some e
latest_of-append latest [] e = refl
latest_of-append latest (x ∷ events) e = latest_of-append (some x) events e

abbrev pub recorded : View → Option RequestRecord
recorded none = none
recorded (some (r, e)) = r

-- An appended event is the latest of its request; the record, and every other request, stay.
pub view-append_event :
    (j : String) (now : ℕ) (rid : String) (state : RequestState) (detail : Detail) (e : Evidence)
    → view j (append_event now rid state detail e) ≡ (
        if str_eq rid j
        then some
            (recorded (view rid e), some (record { ts = now; state = state; detail = detail }))
        else view j e)
unfolding view append_event
view-append_event j now rid state detail e = elim (Bool-cases (str_eq rid j)) [
  | inl same ↦
      rw (get-put, same)
        (ground (
          arith,
          latest_of-append none (or_empty (Dict.get rid e)).events
              (record { ts = now; state = state; detail = detail }),
        ))
  | inr other ↦ rw (get-put, other)
]

view-put :
    (j rid : String) (d : RequestDir) (e : Evidence)
    → view j (Dict.put rid d e) ≡ (if str_eq rid j then view_of (some d) else view j e)
unfolding view
view-put j rid d e = ground (arith, get-put j rid d e)

-- A recorded request has its record and a `queued` event, and every other request stays.
pub view-record_created :
    (j : String) (now : ℕ) (r : RequestRecord) (e : Evidence)
    → view j (record_created now r e) ≡ (
        if str_eq r.request_id j
        then some
            (some r, some (record { ts = now; state = RequestState.queued; detail = no_detail }))
        else view j e)
unfolding record_created
view-record_created j now r e =
    let d : RequestDir = record (dir r.request_id e) { request_json = some r } in
    ground (
      arith,
      view-append_event j now r.request_id RequestState.queued no_detail
          (Dict.put r.request_id d e),
      view-put j r.request_id d e,
      view-put r.request_id r.request_id d e,
      eq_refl r.request_id,
    )

pub read_request_lem : (rid : String) (e : Evidence) → read_request rid e ≡ recorded (view rid e)
unfolding read_request view
read_request_lem rid e = ground arith

abbrev latest : View → Option StateEvent
latest none = none
latest (some (r, e)) = e

pub read_latest_event_lem :
    (rid : String) (e : Evidence) → read_latest_event rid e ≡ latest (view rid e)
unfolding read_latest_event view
read_latest_event_lem rid e = ground arith

-- Membership as a test.
abbrev pub member : String → List String → Bool
member j ids = any (λ i. str_eq i j) ids

abbrev pub IsDistinct : List String → Type 0
IsDistinct [] = Unit
IsDistinct (i ∷ ids) = (member i ids ≡ false) × IsDistinct ids

member-insert :
    (le : String → String → Bool) (j i : String) (ids : List String)
    → member j (insert le i ids) ≡ (str_eq i j || member j ids)
unfolding insert
member-insert le j i [] = refl
member-insert le j i (k ∷ ids) = ground (arith, member-insert le j i ids)

IsDistinct-insert :
    (le : String → String → Bool) (i : String) (ids : List String)
    → member i ids ≡ false
    → IsDistinct ids
    → IsDistinct (insert le i ids)
unfolding insert
IsDistinct-insert le i [] h d = (refl, tt)
IsDistinct-insert le i (k ∷ ids) h (fresh, d) =
    ground (arith, member-insert le k i ids, IsDistinct-insert le i ids, eq_iff k i, eq_iff i k)

pub member-sort :
    (le : String → String → Bool) (j : String) (ids : List String)
    → member j (sort le ids) ≡ member j ids
unfolding sort
member-sort le j [] = refl
member-sort le j (i ∷ ids) =
    ground (arith, member-insert le j i (sort le ids), member-sort le j ids)

pub IsDistinct-sort :
    (le : String → String → Bool) (ids : List String) → IsDistinct ids → IsDistinct (sort le ids)
unfolding sort
IsDistinct-sort le [] d = tt
IsDistinct-sort le (i ∷ ids) (fresh, d) =
    IsDistinct-insert le i (sort le ids) (ground (arith, member-sort le i ids))
      (IsDistinct-sort le ids d)

member-recorded_ids_le :
    (j : String) (e : Evidence) → member j (keys e) ≡ false → member j (recorded_ids e) ≡ false
unfolding recorded_ids
member-recorded_ids_le j [] h = refl
member-recorded_ids_le j ((i, d) ∷ e) h = ground (arith, member-recorded_ids_le j e)

IsDistinct-recorded_ids : (e : Evidence) → IsDistinct (keys e) → IsDistinct (recorded_ids e)
unfolding recorded_ids
IsDistinct-recorded_ids [] h = tt
IsDistinct-recorded_ids ((i, d) ∷ e) (fresh, h) =
    ground (arith, member-recorded_ids_le i e fresh, IsDistinct-recorded_ids e h)

member-recorded_ids :
    (j : String) (e : Evidence)
    → IsDistinct (keys e)
    → member j (recorded_ids e) ≡ is_some (read_request j e)
unfolding recorded_ids read_request Dict.get
member-recorded_ids j [] d = refl
member-recorded_ids j ((i, d) ∷ e) (fresh, h) =
    ground (arith, member-recorded_ids j e h, member-recorded_ids_le i e fresh, eq_iff i j)

-- With no two directories of one name, the ids that are listed are those with a request.json.
pub member-list_request_ids :
    (j : String) (e : Evidence)
    → IsDistinct (keys e)
    → member j (list_request_ids e) ≡ is_some (read_request j e)
unfolding list_request_ids
member-list_request_ids j e d = member-sort name_le j (recorded_ids e) ∙ member-recorded_ids j e d

pub IsDistinct-list_request_ids :
    (e : Evidence) → IsDistinct (keys e) → IsDistinct (list_request_ids e)
unfolding list_request_ids
IsDistinct-list_request_ids e d =
    IsDistinct-sort name_le (recorded_ids e) (IsDistinct-recorded_ids e d)

member-keys-put :
    (j k : String) (d : RequestDir) (e : Evidence)
    → member j (keys (Dict.put k d e)) ≡ (str_eq k j || member j (keys e))
unfolding Dict.put
member-keys-put j k d [] = refl
member-keys-put j k d ((i, x) ∷ e) =
    ground (arith, member-keys-put j k d e, eq_iff i k, eq_iff i j, eq_iff k j)

IsDistinct-keys-put :
    (k : String) (d : RequestDir) (e : Evidence)
    → IsDistinct (keys e)
    → IsDistinct (keys (Dict.put k d e))
unfolding Dict.put
IsDistinct-keys-put k d [] h = (refl, tt)
IsDistinct-keys-put k d ((i, x) ∷ e) (fresh, h) =
    ground (arith, member-keys-put i k d e, IsDistinct-keys-put k d e h, eq_iff i k, eq_iff k i)

pub append_event-IsDistinct :
    (now : ℕ) (rid : String) (state : RequestState) (detail : Detail) (e : Evidence)
    → IsDistinct (keys e)
    → IsDistinct (keys (append_event now rid state detail e))
unfolding append_event
append_event-IsDistinct now rid state detail e h = IsDistinct-keys-put rid _ e h

pub record_created-IsDistinct :
    (now : ℕ) (r : RequestRecord) (e : Evidence)
    → IsDistinct (keys e)
    → IsDistinct (keys (record_created now r e))
unfolding record_created
record_created-IsDistinct now r e h =
    append_event-IsDistinct now r.request_id RequestState.queued no_detail _
      (IsDistinct-keys-put r.request_id _ e h)
