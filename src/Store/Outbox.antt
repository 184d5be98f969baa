-- ===== src/Store/Outbox.antt =====
-- outbox_inmemory.go and outbox_publisher.go: rows that wait to be published, and one tick of the
-- loop that publishes them. An id is the decimal text of the counter, and is that number here;
-- Insert is one step. The payloads and the answers of the pubsub are parameters.
pub mod Laws
pub mod History
mod Examples
use distributed_rate_limiter.Base.{
  ℕ, zero, suc, ◌+◌, Bool, true, false, Option, none, some, List, [], ◌∷◌, ◌++◌, ◌==◌,
  if◌then◌else◌,
}
use distributed_rate_limiter.Base.Int.{ℤ, pos, leb_ℤ, pos_part}

module _ (Data : Type 0) where
  pub record OutboxRow : Type 0 where
    pub id : ℕ
    pub payload : Data

  pub record OutboxEntry : Type 0 where
    pub row : OutboxRow
    pub sent : Bool

  pub record Outbox : Type 0 where
    pub entries : List OutboxEntry
    pub counter : ℕ

  unfoldable pub new_outbox : Outbox
  new_outbox = record { entries = []; counter = 0 }

  -- Insert
  unfoldable pub insert : Data → Outbox → Outbox × ℕ
  insert payload o =
      let id = o.counter + 1 in
      (
        record {
          entries =
              o.entries
              ++ record { row = record { id = id; payload = payload }; sent = false } ∷ [];
          counter = id;
        },
        id,
      )

  -- The loop of FetchPending, with what is left of the limit.
  unfoldable pub pending : ℕ → List OutboxEntry → List OutboxRow
  pending zero es = []
  pending (suc n) [] = []
  pending (suc n) (e ∷ es) = if e.sent then pending (suc n) es else e.row ∷ pending n es

  -- FetchPending
  unfoldable pub fetch_pending : ℤ → Outbox → List OutboxRow
  fetch_pending limit o = if leb_ℤ limit (pos 0) then [] else pending (pos_part limit) o.entries

  -- MarkSent; whether the row is there.
  unfoldable pub mark_sent : ℕ → List OutboxEntry → List OutboxEntry × Bool
  mark_sent id [] = ([], false)
  mark_sent id (e ∷ es) =
      let (rest, found) = mark_sent id es in
      if e.row.id == id then (record e { sent = true } ∷ es, true) else (e ∷ rest, found)

  -- The rows of a tick in order: those that the pubsub takes are marked. `takes` is its answer for
  -- the row of an id; the result has what was published.
  unfoldable pub publish_rows :
      (ℕ → Bool) → List OutboxRow → List OutboxEntry → List OutboxEntry × List Data
  unfolding mark_sent
  publish_rows takes [] es = (es, [])
  publish_rows takes (r ∷ rs) es =
      let (left, sent) = publish_rows takes rs (if takes r.id then (mark_sent r.id es).0 else es) in
      (left, if takes r.id then r.payload ∷ sent else sent)

  -- One tick of Start.
  unfoldable pub tick : (ℕ → Bool) → Outbox → Outbox × List Data
  unfolding fetch_pending
  tick takes o =
      let (left, sent) = publish_rows takes (fetch_pending (pos 100) o) o.entries in
      (record o { entries = left }, sent)
