-- ===== src/Steng/Host.antt =====
-- What the engine takes from Node and from the host it runs on: the clock, random bytes, hashes,
-- JSON and Base64 texts, and the order of the host's locale.
use netab.Common.{ℕ, ◌/◌, ◌%◌, String, Bool, List, [], ◌∷◌, ◌⋅◌, radix_text}
use netab.Json.{Value}
use netab.Steng.ChangeBus.{ChangeBus, Delivery}

pub record Host : Type 0 where
  -- The n-th reading of `Date.now()`, and the n-th draw of `randomBytes(count)`.
  pub clock : ℕ → ℕ
  pub random_bytes : ℕ → ℕ → List ℕ
  pub sha256_text : String → String
  pub sha256_bytes : List ℕ → String
  pub sha256_digest : String → List ℕ
  pub stringify : Value → String
  pub bytes_to_base64 : List ℕ → String
  pub base64_to_bytes : String → List ℕ
  -- `a.localeCompare(b) <= 0`.
  pub locale_le : String → String → Bool

-- How often the clock and the random source were read, the change bus, and the calls of
-- subscribers' callbacks so far.
pub record World : Type 0 where
  pub clock_reads : ℕ
  pub draws : ℕ
  pub bus : ChangeBus
  pub delivered : List Delivery

hex_byte : ℕ → String
hex_byte b = radix_text 16 (b / 16) ⋅ radix_text 16 (b % 16)

-- `bytes.toString('hex')`.
unfoldable pub hex_text : List ℕ → String
unfolding hex_byte
hex_text [] = ""
hex_text (b ∷ bytes) = hex_byte b ⋅ hex_text bytes
