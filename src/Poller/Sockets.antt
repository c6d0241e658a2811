-- ===== src/Poller/Sockets.antt =====
-- How many SNMP sockets a poller opens, and to which responder a device goes: New, newConnPool and
-- pick of fwEDR/internal/poller/poller.go, ShardPort of fwEDR/internal/snmp/client.go. A number of the
-- configuration that is not positive is 0.
use dcim_data_reader.Prelude.{
  ℕ, zero, suc, ◌+◌, ◌-◌, ◌*◌, ◌%◌, ◌^◌, ◌≤◌, ◌<◌, ◌↔◌, Bool, true, false, ◌||◌, List, [], ◌∷◌,
  String, ltb, leb, ◌==◌, str_eq, if◌then◌else◌, decimal, str_append, arith,
}
use dcim_data_reader.Target.{Target}

-- config.SNMPConfig, as far as New and ShardPort read it.
pub record SocketConfig : Type 0 where
  pub max_concurrent : ℕ
  pub shards : ℕ
  pub shard_base_port : ℕ

-- `effCap`
unfoldable pub effective_cap : SocketConfig → ℕ
effective_cap cfg =
    let most : ℕ = if cfg.max_concurrent == 0 then 50 else cfg.max_concurrent in
    let sharded : ℕ =
      if ltb 1 cfg.shards
      then if ltb (cfg.shards * 2) most then cfg.shards * 2 else most
      else most in
    if ltb sharded 1 then 1 else sharded

-- `heavyCap`, from `effCap`.
unfoldable pub heavy_cap : ℕ → ℕ
heavy_cap cap = if ltb (cap - 1) 1 then 1 else cap - 1

-- The hash is Sum32 of hash/fnv.
module _ (fnv : String → ℕ) where
  unfoldable pub shard_port : String → SocketConfig → ℕ
  shard_port community cfg =
      if leb cfg.shards 1 || cfg.shard_base_port == 0
      then 161
      else (cfg.shard_base_port + fnv community % cfg.shards) % 2 ^ 16

  -- connKey
  unfoldable pub conn_key : SocketConfig → Target → String
  unfolding decimal
  conn_key cfg t = str_append t.ip (str_append ":" (decimal 5 (shard_port t.community cfg)))

  contains : String → List String → Bool
  contains key [] = false
  contains key (k ∷ ks) = let later = contains key ks in if str_eq k key then true else later

  -- The loop of New over the targets, with the endpoints that it has seen.
  pooled_from : SocketConfig → List String → List Target → Bool
  unfolding contains
  pooled_from cfg seen [] = false
  pooled_from cfg seen (t ∷ ts) =
      let later = pooled_from cfg (conn_key cfg t ∷ seen) ts in
      if contains (conn_key cfg t) seen then true else later

  unfoldable pub is_pooled : SocketConfig → List Target → Bool
  unfolding pooled_from
  is_pooled cfg ts = pooled_from cfg [] ts

  unfoldable pub pool_size : SocketConfig → List Target → ℕ
  pool_size cfg ts = if is_pooled cfg ts then effective_cap cfg else 1

  -- pick: the position of a community's session in a pool of so many.
  unfoldable pub pick : String → ℕ → ℕ
  pick community sessions = if sessions == 1 then 0 else fnv community % sessions

-- newConnPool: a pool of sessions, of which none is connected.
closed_sessions : ℕ → List Bool
closed_sessions zero = []
closed_sessions (suc n) = false ∷ closed_sessions n

unfoldable pub new_conn_pool : ℕ → List Bool
unfolding closed_sessions
new_conn_pool n = closed_sessions (if ltb n 1 then 1 else n)

-- The places for heavy polls are at least one and at most as many as the sockets, and fewer
-- than the sockets exactly if there is more than one socket; there are at most two sockets for
-- each shard if there are several shards, and at most the configured number if there is one.
pub heavy_cap-effective_cap :
    (cfg : SocketConfig)
    → (1 ≤ heavy_cap (effective_cap cfg))
      × (heavy_cap (effective_cap cfg) ≤ effective_cap cfg)
      × ((heavy_cap (effective_cap cfg) < effective_cap cfg) ↔ (1 < effective_cap cfg))
      × (1 < cfg.shards → effective_cap cfg ≤ 2 * cfg.shards)
      × (0 < cfg.max_concurrent → effective_cap cfg ≤ cfg.max_concurrent)
unfolding effective_cap heavy_cap
heavy_cap-effective_cap cfg = ground arith
