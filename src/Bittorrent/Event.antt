-- ===== src/Bittorrent/Event.antt =====
-- bittorrent/event.go: events, and their names. A name is its bytes; strings.ToLower is written for
-- ASCII, since no letter outside ASCII has a letter of these names as its lower case.
use mochi.Base.{
  ◌≡◌, ◌≢◌, ◌↔◌, ◌⊎◌, inl, inr, refl, arith, [], ◌∷◌, ◌+◌, ◌&&◌, ◌||◌, leb, map, if◌then◌else◌, ℕ,
}
use mochi.Base.Bytes.{Bytes, bytes_eq, bytes_eq_iff}
use mochi.Result.{Result, ok, err, codes, err_unknown_event}

pub data Event : Type 0 where
  nothing started stopped completed : Event

abbrev pub none_str : Bytes
none_str = codes "none"

abbrev pub started_str : Bytes
started_str = codes "started"

abbrev pub stopped_str : Bytes
stopped_str = codes "stopped"

abbrev pub completed_str : Bytes
completed_str = codes "completed"

unfoldable pub lower : ℕ → ℕ
lower c = if leb b'A' c && leb c b'Z' then c + 32 else c

unfoldable pub to_lower : Bytes → Bytes
unfolding lower
to_lower = map lower

unfoldable pub new_event : Bytes → Result Event
unfolding bytes_eq
new_event event_str =
    let s = to_lower event_str in
    if bytes_eq s none_str || bytes_eq s (codes "")
    then ok nothing
    else if bytes_eq s started_str
    then ok started
    else if bytes_eq s stopped_str
    then ok stopped
    else if bytes_eq s completed_str
    then ok completed
    else err err_unknown_event

unfoldable pub string : Event → Bytes
string nothing = none_str
string started = started_str
string stopped = stopped_str
string completed = completed_str

to_lower-eq-nil : (s : Bytes) → to_lower s ≡ [] → s ≡ []
unfolding to_lower
to_lower-eq-nil [] h = refl
to_lower-eq-nil (c ∷ s) h = absurd (cc)

module _ (s : Bytes) where
  new_event-names :
      (e : Event) → new_event s ≡ ok e → (to_lower s ≡ string e) ⊎ ((s ≡ []) × (e ≡ nothing))
  unfolding new_event string
  new_event-names e h = ground (
    arith,
    bytes_eq_iff (to_lower s) none_str,
    bytes_eq_iff (to_lower s) [],
    bytes_eq_iff (to_lower s) started_str,
    bytes_eq_iff (to_lower s) stopped_str,
    bytes_eq_iff (to_lower s) completed_str,
    to_lower-eq-nil s,
  )

  names-new_event :
      (e : Event) → (to_lower s ≡ string e) ⊎ ((s ≡ []) × (e ≡ nothing)) → new_event s ≡ ok e
  unfolding new_event string to_lower
  names-new_event nothing (inl h) = rw h
  names-new_event started (inl h) = rw h
  names-new_event stopped (inl h) = rw h
  names-new_event completed (inl h) = rw h
  names-new_event e (inr (h, k)) = rw (h, k)

  err_of_not_ok : ((f : Event) → new_event s ≢ ok f) → new_event s ≡ err err_unknown_event
  unfolding new_event
  err_of_not_ok h = ground (arith, h nothing, h started, h stopped, h completed)

-- A text is read as an event exactly if it is the event's name, in letters of either case, or if it
-- is empty and the event is `nothing`; a text that is read as no event is refused as an unknown one.
pub new_event_lem :
    (s : Bytes) (e : Event)
    → ((new_event s ≡ ok e) ↔ ((to_lower s ≡ string e) ⊎ ((s ≡ []) × (e ≡ nothing))))
      × ((new_event s ≡ err err_unknown_event) ↔ ((f : Event) → new_event s ≢ ok f))
new_event_lem s e = ((new_event-names s e, names-new_event s e), (λ h f k. cc, err_of_not_ok s))
