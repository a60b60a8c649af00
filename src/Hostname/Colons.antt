-- ===== src/Hostname/Colons.antt =====
-- How many colons an IPv6 address is written with, as the standard library's net.ParseIP reads it.
use Prim.Native.Nat.{◌*◌}
use clusterctl.Prelude.{
  ℕ, zero, suc, ◌+◌, ◌≤◌, Bool, true, false, some, [], ◌∷◌, Bytes, ◌==◌, ◌≡◌, ◌⊎◌, inl, inr, arith,
  Option-cases, if◌then◌else◌,
}
use clusterctl.Hostname.Ip.{hex_run, finish, after_colon, after_group, ipv6_groups, ipv6}

abbrev pub colons : Bytes → ℕ
colons [] = 0
colons (c ∷ s) = colons s + (if c == b':' then 1 else 0)

-- what is read of an address from its byte `i` on: a :: was seen, or two colons are left, or enough of them
-- for all the groups that are left
abbrev Enough : Bytes → ℕ → Bool → Type 0
Enough s i ell = (ell ≡ true) ⊎ (2 ≤ colons s) ⊎ (12 ≤ i + 2 * colons s)

hex_run-colons :
    (s : Bytes) (n m : ℕ) (rest : Bytes) → hex_run s n ≡ some (m, rest) → colons rest ≤ colons s
unfolding hex_run
hex_run-colons [] n m rest h = ground arith
hex_run-colons (c ∷ s) n m rest h = ground (arith, hex_run-colons s (suc n) m rest)

finish-Enough : (s : Bytes) (i : ℕ) (ell : Bool) → finish s i ell ≡ true → Enough s i ell
unfolding finish
finish-Enough s i ell h = ground arith

module _ (next : Bytes → ℕ → Bool → Bool)
    (keeps : (s : Bytes) (i : ℕ) (ell : Bool) → next s i ell ≡ true → Enough s i ell) where
  after_group-Enough :
      (s rest : Bytes) (i : ℕ) (ell : Bool)
      → after_group next s rest i ell ≡ true
      → Enough rest i ell
  unfolding after_group after_colon finish
  after_group-Enough s [] i ell h = ground arith
  after_group-Enough s (c ∷ []) i ell h = ground arith
  after_group-Enough s (c ∷ d ∷ r) i ell h = ground (arith, keeps (d ∷ r) (i + 2) ell)

Enough-more :
    (s rest : Bytes) (i : ℕ) (ell : Bool)
    → colons rest ≤ colons s
    → Enough rest i ell
    → Enough s i ell
Enough-more s rest i ell le h = ground arith

ipv6_groups-Enough :
    (k : ℕ) (s : Bytes) (i : ℕ) (ell : Bool) → ipv6_groups k s i ell ≡ true → Enough s i ell
unfolding ipv6_groups
ipv6_groups-Enough zero s i ell h = finish-Enough s i ell h
ipv6_groups-Enough (suc k) s i ell h = elim (Option-cases (hex_run s 0)) [
  | inl e ↦ cc (rw (e, ipv6_groups) at h)
  | inr ((n, rest), e) ↦
      Enough-more s rest i ell (hex_run-colons s 0 n rest e)
        (group n rest (rw (e, ipv6_groups) at h) (ipv6_groups-Enough k))
]
  where
    group :
        (n : ℕ) (rest : Bytes)
        → (if n == 0 then false else after_group (ipv6_groups k) s rest i ell) ≡ true
        → ((s' : Bytes) (i' : ℕ) (ell' : Bool)
            → ipv6_groups k s' i' ell' ≡ true
            → Enough s' i' ell')
        → Enough rest i ell
    group n rest p ih = after_group-Enough (ipv6_groups k) ih s rest i ell (ground arith)

pub ipv6-colons : (s : Bytes) → ipv6 s ≡ true → 2 ≤ colons s
unfolding ipv6
ipv6-colons [] h = ground (arith, ipv6_groups-Enough 8 [] 0 false)
ipv6-colons (c ∷ []) h = ground (arith, ipv6_groups-Enough 8 (c ∷ []) 0 false)
ipv6-colons (c ∷ d ∷ s) h = ground (arith, ipv6_groups-Enough 8 (c ∷ d ∷ s) 0 false)
