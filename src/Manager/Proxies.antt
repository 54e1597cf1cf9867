-- ===== src/Manager/Proxies.antt =====
-- Which proxy a session gets: `getProxyConfig` of waha-plus/src/core/helpers.proxy.ts.
use native.Mathlib.Nat.{mod-lt}
use Prim.Native.Nat.{◌^◌}
use aira_relay.Base.{
  ℕ, zero, suc, ◌%◌, ◌<◌, ◌≤◌, true, ltb, leb, Bool-cases, inl, inr, if◌then◌else◌, Option, none,
  some, is_some, get_or, chain, List, [], ◌∷◌, Text, length, ◌≡◌, refl, arith,
}
use aira_relay.Manager.{ServerConfig, many}
use aira_relay.Manager.Settings.{nth, pick_index, as_double, index_to_use, get_proxy_config}

nth_inside : (xs : List Text) (i : ℕ) → i < length xs → is_some (nth xs i) ≡ true
nth_inside [] i h = ground arith
nth_inside (x ∷ xs) zero h = refl
nth_inside (x ∷ xs) (suc i) h = nth_inside xs i (omega arith)

-- The number that a session's name gives, 0 if it gives none.
abbrev pub name_number : ServerConfig → Text → ℕ
name_number server name = get_or (index_to_use server.proxy_index_prefix name) 0

positive : (i : ℕ) → ltb 0 (suc i) ≡ true
positive i = ground arith

leb_of_le : (n m : ℕ) → n ≤ m → leb n m ≡ true
leb_of_le n m h = ground (arith, h)

as_double_exact : (n : ℕ) → n ≤ 2 ^ 53 → as_double n ≡ some n
unfolding as_double
as_double_exact n h = rw (leb_of_le n (2 ^ 53) h) refl

-- Up to 2^53, a number is picked as it is.
pick_index_exact :
    (o : Option ℕ) (size idx : ℕ)
    → get_or o 0 ≤ 2 ^ 53
    → pick_index o size idx ≡ some (if ltb 0 (get_or o 0) then get_or o 0 % size else idx)
unfolding pick_index
pick_index_exact none size idx h = refl
pick_index_exact (some zero) size idx h = refl
pick_index_exact (some (suc i)) size idx h = rw (as_double_exact (suc i) h, positive i) refl

picked-lt : (n size running : ℕ) → 0 < size → (if ltb 0 n then n % size else running % size) < size
picked-lt n size running h = elim (Bool-cases (ltb 0 n)) [
  | inl e ↦ rw (e) (mod-lt n h)
  | inr e ↦ rw (e) (mod-lt running h)
]

-- With one proxy server or more in the list, a session without its own proxy gets one of them: if its
-- name gives a number other than 0, that at the number's remainder, whatever runs besides; a session
-- named with 0 gets, like one whose name gives no number, that at the remainder of the number of
-- sessions in memory, which another start may change. The number is at most 2^53.
pub get_proxy_config-many :
    (server : ServerConfig) (s : Text) (servers : List Text) (running : ℕ) (name : Text)
    → server.proxy_server ≡ many (s ∷ servers)
    → name_number server name ≤ 2 ^ 53
    → let size = length (s ∷ servers) in
      let n = name_number server name in
      let chosen = chain (get_proxy_config server running name) (λ p. p.server) in
      (is_some chosen ≡ true)
      × (chosen ≡ nth (s ∷ servers) (if ltb 0 n then n % size else running % size))
unfolding get_proxy_config
get_proxy_config-many server s servers running name h k =
    let o = index_to_use server.proxy_index_prefix name in
    let n = name_number server name in
    let size = length (s ∷ servers) in
    let exact = pick_index_exact o size (running % size) k in
    (
      rw (h, get_proxy_config, exact)
          (nth_inside (s ∷ servers) (if ltb 0 n then n % size else running % size)
            (picked-lt n size running (omega arith))),
      rw (h, get_proxy_config, exact) refl,
    )
