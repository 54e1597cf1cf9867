-- ===== src/Manager/Settings.antt =====
-- The settings that a session starts with: `getProxyConfig` of waha-plus/src/core/helpers.proxy.ts,
-- `getWebhooks` of plus/manager.plus.ts and `ignoreChatsConfig` of core/abc/manager.abc.ts.
use aira_relay.Base.{
  ℕ, zero, suc, ◌+◌, ◌*◌, ◌-◌, ◌%◌, ◌/◌, ltb, leb, Bool, true, false, ◌&&◌, ◌||◌, ◌==◌,
  if◌then◌else◌, Option, none, some, get_or, chain, List, [], ◌∷◌, ◌++◌, Text, length,
}
use Prim.Native.Nat.{◌^◌}
use aira_relay.Jids.{IgnoreJidConfig, is_digit}
use aira_relay.Manager.{
  WebhookConfig, ProxyConfig, SessionConfig, ServerConfig, no_proxy, single, many,
}

unfoldable pub starts_with : Text → Text → Bool
starts_with s [] = true
starts_with [] (d ∷ t) = false
starts_with (c ∷ s) (d ∷ t) = c == d && starts_with s t

-- `s.includes(t)`.
unfoldable pub includes : Text → Text → Bool
unfolding starts_with
includes [] t = starts_with [] t
includes (c ∷ s) t = starts_with (c ∷ s) t || includes s t

-- The match of /\d+$/, as the number that its digits write: the value read so far, if the last characters
-- are digits. `parseInt` makes a double of it.
unfoldable pub trailing_number : Option ℕ → Text → Option ℕ
trailing_number acc [] = acc
trailing_number acc (c ∷ s) =
    trailing_number (if is_digit c then some (get_or acc 0 * 10 + (c - b'0')) else none) s

abbrev pub nth : List Text → ℕ → Option Text
nth [] i = none
nth (x ∷ xs) zero = some x
nth (x ∷ xs) (suc i) = nth xs i

-- The least power of two from `u` on of which `n` has fewer than 2^53; `none` past the fuel.
unfoldable pub unit_of : (fuel u n : ℕ) → Option ℕ
unit_of zero u n = none
unit_of (suc fuel) u n =
    let rest = unit_of fuel (u * 2) n in if ltb (n / u) (2 ^ 53) then some u else rest

-- The multiple of `u` next to `n`, the even one of two that are as near.
abbrev pub nearest : (u n : ℕ) → ℕ
nearest u n =
    let q = n / u in
    let r = n % u in if ltb u (r * 2) || (r * 2 == u && q % 2 == 1) then (q + 1) * u else q * u

-- A number as a double: exact up to 2^53, the next one past it, and `none` for Infinity, which 972 doublings
-- of the unit are enough to tell.
unfoldable pub as_double : ℕ → Option ℕ
unfolding unit_of
as_double n = if leb n (2 ^ 53) then some n else elim (unit_of 972 1 n) [
  | none ↦ none
  | some u ↦ if ltb (nearest u n) (2 ^ 1024) then some (nearest u n) else none
]

abbrev pub remainder : Option ℕ → ℕ → Option ℕ
remainder none size = none
remainder (some d) size = some (d % size)

-- The truth test of `indexToUse ? … : …`: a missing index and 0 are falsy. The remainder of Infinity is NaN,
-- which is `none`.
unfoldable pub pick_index : Option ℕ → ℕ → ℕ → Option ℕ
unfolding as_double
pick_index none size idx = some idx
pick_index (some zero) size idx = some idx
pick_index (some (suc i)) size idx = remainder (as_double (suc i)) size

abbrev pub index_to_use : Option Text → Text → Option ℕ
index_to_use none name = none
index_to_use (some []) name = none
index_to_use (some (c ∷ s)) name = if includes name (c ∷ s) then trailing_number none name else none

-- `running` is the number of sessions in memory.
unfoldable pub get_proxy_config : ServerConfig → ℕ → Text → Option ProxyConfig
unfolding pick_index
get_proxy_config server running name = elim server.proxy_server [
  | no_proxy ↦ none
  | single s ↦ some (record {
    server = some s;
    username = server.proxy_username;
    password = server.proxy_password;
  })
  | many servers ↦ some (record {
    server =
        chain
          (pick_index (index_to_use server.proxy_index_prefix name) (length servers)
            (running % length servers))
          (nth servers);
    username = server.proxy_username;
    password = server.proxy_password;
  })
]

-- The manager's `getProxyConfig`.
unfoldable pub session_proxy : ServerConfig → ℕ → Text → Option SessionConfig → Option ProxyConfig
unfolding get_proxy_config
session_proxy server running name config = elim (chain config (λ c. c.proxy)) [
  | none ↦ get_proxy_config server running name
  | some proxy ↦ some proxy
]

unfoldable pub get_webhooks : ServerConfig → Option SessionConfig → List WebhookConfig
get_webhooks server config =
    let own = get_or (chain config (λ c. c.webhooks)) [] in
    elim server.webhook [ none ↦ own | some w ↦ own ++ (w ∷ []) ]

-- `lodash.defaults({}, config?.ignore, ignore)`.
unfoldable pub ignore_chats_config : ServerConfig → Option SessionConfig → IgnoreJidConfig
ignore_chats_config server config = elim (chain config (λ c. c.ignore)) [
  | none ↦ server.ignore
  | some own ↦ record {
    dm = get_or own.dm server.ignore.dm;
    status = get_or own.status server.ignore.status;
    groups = get_or own.groups server.ignore.groups;
    channels = get_or own.channels server.ignore.channels;
    broadcast = get_or own.broadcast server.ignore.broadcast;
  }
]
