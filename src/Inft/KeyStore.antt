-- ===== src/Inft/KeyStore.antt =====
-- packages/og-inft/src/key-store.ts: the file with the key of an agent. A file is its content, or
-- `none` where there is none.
use federated_reserve.Prelude.{
  Option, none, some, ◌≡◌, refl, Bool, true, false, not, if◌then◌else◌, Bool-cases, inl, inr,
  length, ◌⊎◌, ◌≢◌, sym, ◌∙◌, nat_eq,
}
use federated_reserve.Inft.Crypto.{Bytes, Result, returned, thrown, has_length}

pub record LoadedKey : Type 0 where
  pub key : Bytes
  pub created : Bool

abbrev pub read_key : Bytes → Result LoadedKey
read_key raw =
    if not (has_length 32 raw)
    then thrown "agent key file has unexpected length"
    else returned (record { key = raw; created = false })

-- `loadOrCreateAgentKey`: the file that it leaves, and what it gives.
unfoldable pub load_or_create_agent_key : Bytes → Option Bytes → Option Bytes × Result LoadedKey
load_or_create_agent_key random_key (some raw) = (some raw, read_key raw)
load_or_create_agent_key random_key none =
    (some random_key, returned (record { key = random_key; created = true }))

-- `loadAgentKey`
unfoldable pub load_agent_key : Option Bytes → Result Bytes
load_agent_key none = thrown "ENOENT"
load_agent_key (some raw) =
    if not (has_length 32 raw) then thrown "agent key file has unexpected length" else returned raw

-- `saveAgentKey`
unfoldable pub save_agent_key : Bytes → Option Bytes → Option Bytes × Result (Unit {0})
save_agent_key key file =
    if not (has_length 32 key)
    then (file, thrown "agent key must be 32 bytes")
    else (some key, returned tt)

-- A key as a later call gives it, and the key alone.
abbrev as_found : Result LoadedKey → Result LoadedKey
as_found (returned l) = returned (record l { created = false })
as_found (thrown e) = thrown e

abbrev key_of : Result LoadedKey → Result Bytes
key_of (returned l) = returned l.key
key_of (thrown e) = thrown e

-- Once an agent has loaded or created its key, of 32 bytes if it was created, every later call
-- leaves the file alone and gives the same key or the same error, as one that was not created; and
-- so does reading the key alone.
load_or_create_agent_key_again :
    (random_key other_key : Bytes) (file : Option Bytes)
    → length random_key ≡ 32
    → (load_or_create_agent_key other_key (load_or_create_agent_key random_key file).0 ≡ (
      (load_or_create_agent_key random_key file).0,
      as_found (load_or_create_agent_key random_key file).1,
    ))
      × (load_agent_key (load_or_create_agent_key random_key file).0
          ≡ key_of (load_or_create_agent_key random_key file).1)
unfolding load_or_create_agent_key load_agent_key
load_or_create_agent_key_again random_key other_key none h =
    let long : has_length 32 random_key ≡ true = (nat_eq.same_iff (length random_key) 32).1 h in
    rw long (refl, refl)
load_or_create_agent_key_again random_key other_key (some raw) h =
    elim (Bool-cases (has_length 32 raw)) [ inl e ↦ rw e (refl, refl) | inr e ↦ rw e (refl, refl) ]

-- A key of 32 bytes that is saved is the key that is read; another length leaves the file as it is.
pub load_agent_key-save_agent_key :
    (key : Bytes) (file : Option Bytes)
    → ((length key ≡ 32) × (load_agent_key (save_agent_key key file).0 ≡ returned key))
      ⊎ ((length key ≢ 32) × ((save_agent_key key file).0 ≡ file))
unfolding save_agent_key load_agent_key
load_agent_key-save_agent_key key file = elim (Bool-cases (has_length 32 key)) [
  | inl e ↦ inl ((nat_eq.same_iff (length key) 32).0 e, rw (e, e) refl)
  | inr e ↦ inr ((λ h. clash (sym ((nat_eq.same_iff (length key) 32).1 h) ∙ e)), rw e refl)
]
  where
    clash : true ≡ false → ⊥
    clash c = cc
