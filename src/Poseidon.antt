-- ===== src/Poseidon.antt =====
-- contracts/soroban-utils/src/poseidon2.rs and constants.rs: the two Poseidon2 hashes of the
-- contracts, the BN254 scalar field's modulus and the hashes of empty subtrees. The permutation
-- itself is a host function of Soroban, and so a parameter: `permutation_t2 left right` and
-- `permutation_t3 a b sep` stand for the first element of what `poseidon2_permutation` returns for
-- the state (left, right), or (a, b, sep), with the round constants and the matrix diagonal that
-- the source passes. A U256 is a number below 2^256.
pub mod Constants2
pub mod Constants3
pub mod Permutation
use native.Mathlib.Nat.{mod-eq_of_lt}
use stellar_private_payments.Prelude.{
  length, All, get_or, get_elem?, get_elem?-get_or, All-get_or, refl, ℕ, ◌+◌, ◌%◌, ◌^◌, ◌≤◌, ◌<◌,
  ◌≡◌, ◌||◌, Option, none, some, List, [], ◌∷◌, arith, leb, if◌then◌else◌, Outcome, ok, panic,
}

pub record Host : Type 0 where
  pub permutation_t2 : ℕ → ℕ → ℕ
  pub permutation_t3 : ℕ → ℕ → ℕ → ℕ

unfoldable pub bn256_modulus : ℕ
bn256_modulus = 0x30644e72e131a029b85045b68181585d2833e84879b9709143e1f593f0000001

-- What the host documents: the permutation works on field elements and returns field elements.
pub record IsCanonical (h : Host) : Type 0 where
  pub t2_lt : (left right : ℕ) → h.permutation_t2 left right < bn256_modulus
  pub t3_lt : (a b sep : ℕ) → h.permutation_t3 a b sep < bn256_modulus

-- The sum of a field element and the host's output is a `U256::add`, which traps on overflow.
unfoldable pub poseidon2_compress : {E : Type 0} → Host → ℕ → ℕ → Outcome E ℕ
poseidon2_compress h left right =
    if leb bn256_modulus left || leb bn256_modulus right
    then panic
    else let sum = h.permutation_t2 left right + left in
      if leb (2 ^ 256) sum
      then panic
      else ok (if leb bn256_modulus sum then sum % bn256_modulus else sum)

unfoldable pub poseidon2_hash2 : {E : Type 0} → Host → ℕ → ℕ → Option ℕ → Outcome E ℕ
poseidon2_hash2 h a b sep =
    let s : ℕ = elim sep [ none ↦ 0 | some t ↦ t ] in
    if leb bn256_modulus a || leb bn256_modulus b || leb bn256_modulus s
    then panic
    else ok (h.permutation_t3 a b s)

-- The value of the compression: the feed-forward sum in the field.
unfoldable pub compression : Host → ℕ → ℕ → ℕ
compression h left right = (h.permutation_t2 left right + left) % bn256_modulus

bn256_modulus_le : bn256_modulus + bn256_modulus ≤ 2 ^ 256
unfolding bn256_modulus
bn256_modulus_le = omega arith

pub bn256_modulus_pos : 0 < bn256_modulus
unfolding bn256_modulus
bn256_modulus_pos = omega arith

pub compression-lt : (h : Host) (left right : ℕ) → compression h left right < bn256_modulus
unfolding compression
compression-lt h left right = omega (arith, bn256_modulus_pos)

-- On field elements the compression neither traps nor overflows.
pub poseidon2_compress-eq-ok :
    {E : Type 0} (h : Host)
    → IsCanonical h
    → (left right : ℕ) → left < bn256_modulus
    → right < bn256_modulus
    → poseidon2_compress {E = E} h left right ≡ ok (compression h left right)
unfolding poseidon2_compress compression
poseidon2_compress-eq-ok h c left right hl hr = ground (
  arith,
  c.t2_lt left right,
  bn256_modulus_le,
  mod-eq_of_lt {n = h.permutation_t2 left right + left} {m = bn256_modulus},
)

unfoldable pub get_zeroes : List ℕ
get_zeroes =
    0x25302288db99350344974183ce310d63b53abb9ef0f8575753eed36e0118f9ce
    ∷ 0x21f4ea2492ade006a8ee7fb764060a95a4eef5ca931e037bcdf05fc28067d008
    ∷ 0x0ebfb4d2f05bb6a473c9bff72586fec806f1ac237015c570d7c78249cf7d7740
    ∷ 0x066882a5dab186d4d63fa6600f9ea3d5cdfef2a2811c89731128a729d7e8b897
    ∷ 0x065db3148d8da5329beaec5042785c69f2ce0709e26d468bda1e255c599b5686
    ∷ 0x19926faa23b0737d467f9476f0f84b2968ff6666e16a23e4d44898f884504764
    ∷ 0x287c485a72ccc8d4d80692d97eb62c164953a0422791f6af6214a9a7ad2279c0
    ∷ 0x1f729e103e7d415f728dc945e3b6e2c40ac0cb369e532ba50a569790cdde2acc
    ∷ 0x1887e71f92217ffe86620e6ea5a71ad3521fade4c83203ffa3e838fe3d6e7203
    ∷ 0x295aa78e56c7a09a864f2f4175100095f3e7b9ef2a911af87cb0f3f7eef27700
    ∷ 0x0517032a796b0340dc5f9df28b1fd320daba24d5a45335a137167300ee368828
    ∷ 0x15fadf4947d2a40c7b439e83ea3c979ff725aad11c47aaaf892aab413db2dcdd
    ∷ 0x00acb7236b6d87f4875b3b9d1720a9e0682c70e4bc6d54edf61faa2bc93841d6
    ∷ 0x09836dd9054d560ae60ea6a8033404b3e40309f6ee4d170acb92e6667e86c775
    ∷ 0x2198946b17f9ba035d7ee728741ca5f4e5875cb6afb29684a6f5f9a82feec482
    ∷ 0x15d4b16830604dbe0b3212e31f9574787c15b0f54e5e24b080687e7a6ef6d455
    ∷ 0x2d07f73e04cf0a538037ba07561651ac979bb00e1705c75ddc9516ec4b8a6a76
    ∷ 0x02f8731aea289a6b401000487e8c6925c922407eeca58f2e18cc8ad9b6c5d13f
    ∷ 0x0a30053c1787c79782e60bc8d825e9e323c8a902f93aa5923c24d17d16db925c
    ∷ 0x0ea3058d9958ba5fe441fbd79dc968f449215ddee66146161afcf34c34bfa490
    ∷ 0x27b9937e47a65983ad50a5b7f6b9cf0542c91a8dfa1714cef89013438a06f9b7
    ∷ 0x2d347be4e547c5837c1b2172322628a0c48d668193196791b310674b0453c039
    ∷ 0x03f2461b35b892fc8c589706283d1083f4d2d66be4f97e461abaf2f06f89cffd
    ∷ 0x259b8fa0082cf6066f005a0a49006712fe1dcfef6a98d68f7ab445f88adb61a7
    ∷ 0x1980a5f7eac09daac7b2d2179ba1d970fb3f0213dd90613128f5d55863d84414
    ∷ 0x1cfcd94aabc23cacd4ccab22e87d2303200d09b03042b2047f03d2e0def57e85
    ∷ 0x102bdc81acbf8c52d35871a21ff27516ddbe6e31ef51740c49bd2ee2b1980c21
    ∷ 0x2fad84f388a263e714c7b39fb0dd24be6158b9e21480aa3a60778707889f76ad
    ∷ 0x2ace942d30becb369f1cfd025b5394d6ee4c97f55930048a18fb501128c87777
    ∷ 0x0930feccbf762a6b239acee2c369de9a31bd3e232c90c64af141945c1c415463
    ∷ 0x1a59e2ba55f1e829bca2c6316a9ccd08017d2e9bf532942c26d82365ca604b58
    ∷ 0x1a8e840c84e2fb5212d61f09ad5f91d6a70a83074e942772ef74b42d12a11f50
    ∷ 0x134b50df02e2ccb98b59af2c2c55d7a41ff102681730c42ba364dbff1271cf62 ∷ []

pub length-get_zeroes : length get_zeroes ≡ 33
unfolding get_zeroes
length-get_zeroes = refl

pub get_zeroes-Canonical : All (λ x. x < bn256_modulus) get_zeroes
unfolding get_zeroes bn256_modulus
get_zeroes-Canonical = omega arith

-- The hash of an empty subtree of a level.
abbrev pub empty_subtree : ℕ → ℕ
empty_subtree i = get_or get_zeroes i 0

pub empty_subtree-stored : (i : ℕ) → i < 33 → get_elem? get_zeroes i ≡ some (empty_subtree i)
empty_subtree-stored i h = get_elem?-get_or get_zeroes i 0 (omega (arith, length-get_zeroes))

pub empty_subtree-lt : (i : ℕ) → i < 33 → empty_subtree i < bn256_modulus
empty_subtree-lt i h =
    All-get_or (λ x. x < bn256_modulus) get_zeroes i 0 get_zeroes-Canonical
      (omega (arith, length-get_zeroes))
