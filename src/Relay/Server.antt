-- ===== src/Relay/Server.antt =====
-- relay/server.py: the state, the requests and the checks that the handlers share. A text is its code
-- points.
pub mod Handlers
pub mod Gate
pub mod Cases
pub mod Limit
pub mod Asks
pub mod Sends
use spellbook.Prelude.{
  ℕ, ◌*◌, Bool, true, not, ◌&&◌, ◌||◌, Option, none, some, List, [], ◌∷◌, ◌==◌, number_IsKey,
  bytes_IsKey, ltb, leb, length, keep, take, contains, if◌then◌else◌,
}
use spellbook.Prelude.Codes.{codes, strip, lower_text, from_hex, is_digit}
use spellbook.Prelude.Dict.{Dict, get, has}
use spellbook.Prelude.Options.{◌>>=◌}
use spellbook.Streamable.Bytes.{Bytes}
use spellbook.Streamable.Utf8.{Text}
use spellbook.Streamable.Coins.{SpendBundle, parse_spend_bundle}

abbrev pub max_puzzle_hashes : ℕ
max_puzzle_hashes = 50

abbrev pub max_bundle_bytes : ℕ
max_bundle_bytes = 5 * 1024 * 1024

abbrev pub rate_limit_per_min : ℕ
rate_limit_per_min = 60

abbrev pub broadcast_log_size : ℕ
broadcast_log_size = 200

abbrev pub forbidden_fields : List Text
forbidden_fields =
    codes "seed"
    ∷ codes "mnemonic"
    ∷ codes "private_key"
    ∷ codes "privatekey"
    ∷ codes "secret"
    ∷ codes "entropy"
    ∷ codes "backup_words"
    ∷ codes "passphrase"
    ∷ []

-- A JSON value, as far as the handlers look into one: an item of a list that is no text is `none`.
pub data Json : Type 0 where
  text : Text → Json
  list : List (Option Text) → Json
  null other : Json

abbrev pub Body : Type 0
Body = Dict Text Json

-- `networks` are those enabled, `running` those that have a manager.
pub record ServerConfig : Type 0 where
  pub token : Text
  pub networks : List Text
  pub network_id : Text
  pub running : List Text

pub record BroadcastRecord : Type 0 where
  pub txid : Bytes
  pub network : Text
  pub status : ℕ
  pub error : Option Text
  pub coin_spends : ℕ
  pub time : ℕ

pub record Server : Type 0 where
  pub broadcast_log : List BroadcastRecord
  pub rate_buckets : Dict Text (List ℕ)

-- `_hex32`
unfoldable pub hex32 : Option Text → Option Bytes
unfolding from_hex
hex32 none = none
hex32 (some value) =
    let s = lower_text (strip value) in
    if length s == 64 && length (keep (λ c. is_digit c || leb 97 c && leb c 102) s) == 64
    then from_hex s
    else none

unfoldable pub hex32_all : List (Option Text) → Option (List Bytes)
unfolding hex32
hex32_all [] = some []
hex32_all (h ∷ hs) = hex32 h >>= λ b. hex32_all hs >>= λ bs. some (b ∷ bs)

-- `check_forbidden_fields`
unfoldable pub check_forbidden_fields : Body → Option Text
check_forbidden_fields [] = none
check_forbidden_fields ((k, v) ∷ body) =
    if contains (lower_text (strip k)) forbidden_fields then some k else check_forbidden_fields body

-- `set(body.keys()) <= allowed`
abbrev pub only_keys : List Text → Body → Bool
only_keys allowed [] = true
only_keys allowed ((k, v) ∷ body) = contains k allowed && only_keys allowed body

-- `_network_body_keys_ok`, of one required key.
abbrev pub network_body_keys_ok : Body → Text → Bool
network_body_keys_ok body required =
    has required body && only_keys (required ∷ codes "network" ∷ []) body

-- `_resolve_network`; a value that is no text is the name of no network.
unfoldable pub resolve_network : ServerConfig → Option Json → Option Text → Option Text
resolve_network cfg (some (text name)) query =
    let n = lower_text (strip name) in if contains n cfg.networks then some n else none
resolve_network cfg (some (list items)) query = none
resolve_network cfg (some other) query = none
resolve_network cfg _ none = some cfg.network_id
resolve_network cfg _ (some name) =
    let n = lower_text (strip name) in if contains n cfg.networks then some n else none

-- What a handler comes to: a refusal with its status, or what it asks of the network's manager.
pub data Decision : Type 0 where
  refuse : ℕ → Decision
  ask_coins ask_coin_ids : Text → List Bytes → Decision
  ask_coin : Text → Bytes → Decision
  send : Text → Bytes → SpendBundle → Decision
  show_status : Text → Decision
  show : List BroadcastRecord → Decision

-- `if manager is None: return err(..., 503)`
abbrev pub with_manager : ServerConfig → Text → Decision → Decision
with_manager cfg network d = if contains network cfg.running then d else refuse 503
