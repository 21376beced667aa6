-- ===== src/Recurrence.antt =====
-- src/common/filters/error-recurrence-tracker.service.ts: the sliding window of recent errors.
-- Error codes and paths are only compared and are numbers; a message is the list of its characters.
-- Times are milliseconds. The store keeps the codes in the order of their first occurrence.
pub mod Laws
mod Tests
use beleqet_ecosystem_update.Base.{
  ℕ, suc, ◌+◌, ◌-◌, ◌==◌, ltb, leb, if◌then◌else◌, Bool, true, false, not, Option, none, some, List,
  [], ◌∷◌, ◌++◌, map, length, take, drop, filter, find, Dict, lookup, insert,
}

pub record ErrorOccurrence : Type 0 where
  pub timestamp : ℕ
  pub path : ℕ
  pub message : List ℕ

pub record RecurrenceSnapshot : Type 0 where
  pub error_code : ℕ
  pub hit_count : ℕ
  pub alert_triggered : Bool
  pub recent_timestamps : List ℕ
  pub top_paths : List ℕ

abbrev pub default_window_ms : ℕ
default_window_ms = 300_000

abbrev pub default_threshold : ℕ
default_threshold = 10

abbrev pub max_occurrences : ℕ
max_occurrences = 500

abbrev pub message_max_len : ℕ
message_max_len = 200

-- `alerts` is what the service has logged as critical: the code, the hits and the top paths.
pub record Tracker : Type 0 where
  pub window_ms : ℕ
  pub threshold : ℕ
  pub store : Dict (List ErrorOccurrence)
  pub alerted : List ℕ
  pub alerts : List (ℕ × ℕ × List ℕ)

abbrev pub has : ℕ → List ℕ → Bool
has code [] = false
has code (c ∷ cs) = if c == code then true else has code cs

abbrev pub remove : ℕ → List ℕ → List ℕ
remove code = filter (λ c. not (c == code))

-- Whether an occurrence lies in the window: `timestamp >= now - windowMs`, on numbers that may be
-- negative in the source.
pub is_recent : ℕ → ℕ → ErrorOccurrence → Bool
is_recent now window o = leb now (o.timestamp + window)

-- The frequency map of `topN`, in the order of first occurrence.
count_item : ℕ → Dict ℕ → Dict ℕ
count_item item freq = insert item (suc (elim (lookup item freq) [ none ↦ 0 | some n ↦ n ])) freq

pub frequencies : List ℕ → Dict ℕ → Dict ℕ
unfolding count_item
frequencies [] freq = freq
frequencies (x ∷ xs) freq = frequencies xs (count_item x freq)

-- A stable sort with the larger first, as `sort((a, b) => b - a)` by a key.
unfoldable pub insert_by {ℓ} : {A : Type ℓ} → (A → ℕ) → A → List A → List A
insert_by key x [] = x ∷ []
insert_by key x (y ∷ ys) = if ltb (key y) (key x) then x ∷ y ∷ ys else y ∷ insert_by key x ys

pub sort_by {ℓ} : {A : Type ℓ} → (A → ℕ) → List A → List A → List A
sort_by key [] sorted = sorted
sort_by key (x ∷ xs) sorted = sort_by key xs (insert_by key x sorted)

pub top_n : List ℕ → ℕ → List ℕ
unfolding frequencies sort_by insert_by
top_n items n = map (λ e. e.0) (take n (sort_by (λ e. e.1) (frequencies items []) []))

pub paths : List ErrorOccurrence → List ℕ
paths = map (λ o. o.path)

-- `triggerAlert`: once for each code until the flag is reset.
pub trigger_alert : ℕ → List ErrorOccurrence → Tracker → Tracker
unfolding top_n paths
trigger_alert code occurrences t = if has code t.alerted then t else record t {
  alerted = t.alerted ++ code ∷ [];
  alerts = t.alerts ++ (code, length occurrences, top_n (paths occurrences) 3) ∷ [];
}

-- The history of a code after a new occurrence: pruned, extended, and cut to the cap from the front.
pub refreshed : ℕ → ℕ → ErrorOccurrence → List ErrorOccurrence → List ErrorOccurrence
unfolding is_recent
refreshed now window new occurrences =
    let fresh = filter (is_recent now window) occurrences ++ new ∷ [] in
    if ltb max_occurrences (length fresh)
    then drop (length fresh - max_occurrences) fresh
    else fresh

pub history : ℕ → Tracker → List ErrorOccurrence
history code t = elim (lookup code t.store) [ none ↦ [] | some os ↦ os ]

pub occurrence : ℕ → ℕ → List ℕ → ErrorOccurrence
occurrence now path message = record {
  timestamp = now;
  path = path;
  message = take message_max_len message;
}

pub track : ℕ → ℕ → ℕ → List ℕ → Tracker → Tracker
unfolding trigger_alert refreshed history occurrence
track now code path message t =
    let fresh = refreshed now t.window_ms (occurrence now path message) (history code t) in
    let stored = record t { store = insert code fresh t.store } in
    if leb stored.threshold (length fresh)
    then trigger_alert code fresh stored
    else record stored { alerted = remove code stored.alerted }

last_five : List ℕ → List ℕ
last_five xs = drop (length xs - 5) xs

snapshot_of : ℕ → Tracker → ℕ → List ErrorOccurrence → RecurrenceSnapshot
unfolding top_n last_five paths
snapshot_of now t code fresh = record {
  error_code = code;
  hit_count = length fresh;
  alert_triggered = has code t.alerted;
  recent_timestamps = last_five (map (λ o. o.timestamp) fresh);
  top_paths = top_n (paths fresh) 3;
}

-- The loop of `getSnapshot`: codes with no recent hit are passed over.
pub snapshots : ℕ → Tracker → Dict (List ErrorOccurrence) → List RecurrenceSnapshot
unfolding snapshot_of is_recent
snapshots now t [] = []
snapshots now t ((code, occurrences) ∷ store) =
    let fresh = filter (is_recent now t.window_ms) occurrences in
    let rest = snapshots now t store in
    if length fresh == 0 then rest else snapshot_of now t code fresh ∷ rest

pub get_snapshot : ℕ → Tracker → List RecurrenceSnapshot
unfolding snapshots sort_by insert_by
get_snapshot now t = sort_by (λ s. s.hit_count) (snapshots now t t.store) []

pub get_by_code : ℕ → ℕ → Tracker → Option RecurrenceSnapshot
unfolding get_snapshot
get_by_code now code t = find (λ s. s.error_code == code) (get_snapshot now t)

pub reset : Tracker → Tracker
reset t = record t { store = []; alerted = [] }
