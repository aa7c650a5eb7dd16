-- ===== src/Ebpf/Reader.antt =====
-- internal/sensor/ebpf/tracer.go: the loops that move events from a ring to a bounded channel, and
-- the consumer that takes them from the channel.
pub mod Order
use scrutiny.Base.{
  ℕ, Bool, true, false, Option, none, some, List, [], ◌∷◌, ◌++◌, append_below, if◌then◌else◌,
}

abbrev pub channel_size : ℕ
channel_size = 4096

-- What a read of the ring returns: the bytes of a record, a transient error, or ErrClosed.
pub data ReadResult : Type 0 where
  sample : List ℕ → ReadResult
  transient ring_closed : ReadResult

-- Is the goroutine in its loop, and what waits in the channel?
pub record Reader {ℓ} (A : Type ℓ) : Type ℓ where
  pub running : Bool
  pub queue : List A

-- The record that a round takes from the ring.
abbrev pub read_by : Bool → ReadResult → List (List ℕ)
read_by false (sample raw) = raw ∷ []
read_by _ _ = []

module _ {ℓ} {A : Type ℓ} (decode : List ℕ → Option A) where
  -- The send in a `select` with a default: dropped where the channel is full.
  unfoldable pub deliver : Option A → Reader A → Reader A
  deliver none s = s
  deliver (some evt) s = record s { queue = append_below channel_size evt s.queue }

  -- One round of readLoop: was `stopCh` closed at its start, and what did the read return?
  unfoldable pub read_round : Bool → ReadResult → Reader A → Reader A
  unfolding deliver
  read_round true r s = record s { running = false }
  read_round false ring_closed s = record s { running = false }
  read_round false transient s = s
  read_round false (sample raw) s = deliver (decode raw) s

  -- The states that are reached, with the records that were read and the events that the consumer
  -- took, in order.
  pub data Reach : List (List ℕ) → List A → Reader A → Type ℓ where
    begin : Reach [] [] (record { running = true; queue = [] })
    round :
        {raws : List (List ℕ)} {got : List A} {queue : List A} (stopped : Bool) (r : ReadResult)
        → Reach raws got (record { running = true; queue = queue })
        → Reach
            (raws ++ read_by stopped r)
            got
            (read_round stopped r (record { running = true; queue = queue }))
    consume :
        {raws : List (List ℕ)} {got : List A} {running : Bool} {evt : A} {queue : List A}
        → Reach raws got (record { running = running; queue = evt ∷ queue })
        → Reach raws (got ++ evt ∷ []) (record { running = running; queue = queue })
