-- ===== src/Jobs/Store/Watermarks.antt =====
-- src/pe_review_agent/jobs/store.py: the watermarks of the event readers, and the queue's depth. A
-- time with no time zone, which `advance_service_watermark` refuses, has no counterpart in ticks.
use pe_review_agent.Domain.{Name, is_terminal_state, retry_wait, state_eq}
use pe_review_agent.Jobs.Rows.{Db, Watermark}
use pe_review_agent.Jobs.Store.Leases.{lease_free}
use pe_review_agent.Prelude.{
  ==_refl, Option, ap, arith, count_where, find?, find?-replace_first, find?_passes, if◌then◌else◌,
  is_none, ltb, max, none, not, refl, replace_first, some, true, ℕ, ◌&&◌, ◌==◌, ◌||◌, ◌∙◌, ◌∷◌, ◌≡◌,
}

abbrev pub find_watermark : Name → Db → Option Watermark
find_watermark key db = find? (λ (w : Watermark). w.key == key) db.watermarks

abbrev pub timestamp_of : Option Watermark → Option ℕ
timestamp_of none = none
timestamp_of (some w) = w.timestamp_value

-- `JobStore.get_service_watermark`
unfoldable pub get_service_watermark : Name → Db → Option ℕ
get_service_watermark key db = timestamp_of (find_watermark key db)

-- The row that a conflict updates, where its WHERE clause holds.
unfoldable pub advanced_row : ℕ → Watermark → Watermark
advanced_row at w = elim w.timestamp_value [
  | none ↦ record w { timestamp_value = some at }
  | some old ↦ if ltb old at then record w { timestamp_value = some at } else w
]

-- INSERT ... ON CONFLICT DO UPDATE on the row with the key.
unfoldable pub upsert : Name → ℕ → Option Watermark → Db → Db
unfolding advanced_row
upsert key at none db = record db {
  watermarks = record { key = key; timestamp_value = some at } ∷ db.watermarks;
}
upsert key at (some w) db = record db {
  watermarks = replace_first (λ (x : Watermark). x.key == key) (advanced_row at w) db.watermarks;
}

-- `JobStore.advance_service_watermark`
unfoldable pub advance_service_watermark : Name → ℕ → Db → Db
unfolding upsert
advance_service_watermark key at db = upsert key at (find_watermark key db) db

-- `JobStore.pending_depth`
unfoldable pub pending_depth : ℕ → Db → ℕ
unfolding lease_free
pending_depth now db =
    count_where
      (λ job.
        not (is_terminal_state job.state)
        && (state_eq job.state retry_wait || is_none job.lease_owner || lease_free now job))
      db.jobs

-- The later of a watermark, if there is one, and a time.
abbrev pub later_of : Option ℕ → ℕ → ℕ
later_of none at = at
later_of (some old) at = max old at

advanced_row-later_of :
    (at : ℕ) (w : Watermark)
    → ((advanced_row at w).timestamp_value ≡ some (later_of w.timestamp_value at))
      × ((advanced_row at w).key ≡ w.key)
unfolding advanced_row
advanced_row-later_of at w = stamped w w.timestamp_value refl
  where
    stamped :
        (w : Watermark) (t : Option ℕ)
        → w.timestamp_value ≡ t
        → ((advanced_row at w).timestamp_value ≡ some (later_of t at))
          × ((advanced_row at w).key ≡ w.key)
    stamped w none e = ground arith
    stamped w (some old) e = ground arith

upsert-find :
    (key : Name) (at : ℕ) (o : Option Watermark) (db : Db)
    → find_watermark key db ≡ o
    → (w : Watermark) × (find_watermark key (upsert key at o db) ≡ some w)
      × (w.timestamp_value ≡ some (later_of (timestamp_of o) at))
unfolding upsert find?
upsert-find key at none db e =
    (record { key = key; timestamp_value = some at }, rw (==_refl key) refl, refl)
upsert-find key at (some w) db e =
    let (t, k) = advanced_row-later_of at w in
    let is_key : (w.key == key) ≡ true =
      find?_passes (λ (x : Watermark). x.key == key) db.watermarks e in
    (
      advanced_row at w,
      find?-replace_first (λ x. x.key == key) (advanced_row at w) db.watermarks e (rw k is_key),
      t,
    )

-- Advancing a watermark to a time leaves the later of the two: it never goes back.
pub advance_service_watermark_later :
    (key : Name) (at : ℕ) (db : Db)
    → get_service_watermark key (advance_service_watermark key at db)
      ≡ some (later_of (get_service_watermark key db) at)
unfolding get_service_watermark advance_service_watermark
advance_service_watermark_later key at db =
    let (w, f, t) = upsert-find key at (find_watermark key db) db refl in ap timestamp_of f ∙ t
