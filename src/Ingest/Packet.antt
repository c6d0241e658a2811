-- ===== src/Ingest/Packet.antt =====
-- A telemetry packet, as the ingest workers read it, and Normalize
-- (fwDCS/internal/ingest/normalizer.go). Times are nanoseconds.
use dcim_data_reader.Prelude.{
  ℕ, ◌+◌, ◌≤◌, Bool, Option, none, some, List, String, ltb, if◌then◌else◌, arith,
}
use dcim_data_reader.Prelude.Dict.{lookup}

-- strings.TrimSpace, strings.HasPrefix at its prefix and the text, and strconv.Atoi, where the number
-- of an interface is not negative.
pub record Texts : Type 0 where
  pub trim : String → String
  pub has_prefix : String → String → Bool
  pub atoi : String → Option ℕ

-- `V` is the type of the values, float64.
module _ (V : Type 0) where
  pub record Packet : Type 0 where
    pub id : String
    pub org_id : String
    pub datacenter_id : String
    pub floor_id : String
    pub network_id : String
    pub group_id : String
    pub source_id : String
    pub reader_id : String
    pub timestamp_ns : ℕ
    pub name : String
    pub tag : String
    pub value : V
    pub meta : List (String × String)
    pub kind : String
    pub nonce : ℕ

  -- `pkt.Meta[key]`, which is "" where there is no such key.
  unfoldable pub meta_at : String → Packet → String
  meta_at key pkt = elim (lookup key pkt.meta) [ none ↦ "" | some text ↦ text ]

  -- 5 minutes ahead and 24 hours back.
  clamp : ℕ → ℕ → ℕ
  clamp now ts =
      let early : ℕ = if ltb (now + 300_000_000_000) ts then now else ts in
      if ltb (early + 86_400_000_000_000) now then now else early

  unfoldable pub normalize : Texts → ℕ → Packet → Packet
  unfolding clamp
  normalize texts now pkt = record pkt {
    tag = texts.trim pkt.tag;
    timestamp_ns = clamp now pkt.timestamp_ns;
  }

  -- The timestamp lies at most 24 hours before and at most 5 minutes behind `now`.
  pub record IsRecent (now ts : ℕ) : Type 0 where
    pub not_old : now ≤ ts + 86_400_000_000_000
    pub not_ahead : ts ≤ now + 300_000_000_000

  pub normalize-IsRecent :
      (texts : Texts) (now : ℕ) (pkt : Packet) → IsRecent now (normalize texts now pkt).timestamp_ns
  unfolding normalize clamp
  normalize-IsRecent texts now pkt = record { not_old = ground arith; not_ahead = ground arith }
