-- ===== src/Auth/Room.antt =====
-- The maps of `InMemoryEphemeralStateStore` in apps/api/src/auth/in-memory-ephemeral-store.ts while
-- they have room: what a key gives, and the size, after each operation on another key.
use hunsu.Base.{◌≡◌, refl, arith, ℕ, suc, ◌+◌, ◌≤◌, String, Bool, true, false, ◌==◌, ==_refl, some}
use hunsu.Lists.{length}
use hunsu.Maps
use hunsu.Maps.{Entries, HasKeysOnce, kept}
use hunsu.Maps.Laws.{get-set, get-delete, get-retain}
use hunsu.Auth.Memory.{maximum_records, trim_map}
use hunsu.Auth.Bounds.{trim_map_short, length-set, length-set_present, length-delete, length-retain}

-- A key gives a value, and there is room for so many more keys.
pub record Holds {ℓ} {V : Type ℓ} (key : String) (value : V) (room : ℕ) (entries : Entries V)
    : Type ℓ where
  pub held : Maps.get key entries ≡ some value
  pub bounded : length entries + room ≤ maximum_records

module _ {ℓ} {V : Type ℓ} (key : String) (value : V) (room : ℕ) (entries : Entries V) where
  pub retained-Holds :
      (keeps : V → Bool)
      → HasKeysOnce entries
      → keeps value ≡ true
      → Holds key value room entries
      → Holds key value room (Maps.retain keeps entries)
  retained-Holds keeps once kept_value h = record {
    held = rw (get-retain keeps key entries once, h.held, kept_value) refl;
    bounded = let b = h.bounded in let d = length-retain keeps entries in omega arith;
  }

  pub deleted-Holds :
      (other : String)
      → (other == key) ≡ false
      → Holds key value room entries
      → Holds key value room (Maps.delete other entries)
  deleted-Holds other apart h = record {
    held = rw (get-delete other key entries, apart) (h.held);
    bounded = let b = h.bounded in let d = length-delete other entries in omega arith;
  }

  -- One more key takes a place, and none is trimmed.
  pub trimmed-Holds :
      (other : String) (new : V)
      → (other == key) ≡ false
      → Holds key value (suc room) entries
      → Holds key value room (trim_map (Maps.set other new entries))
  trimmed-Holds other new apart h =
      let b = h.bounded in
      let d = length-set other new entries in
      let short = trim_map_short (Maps.set other new entries) (omega arith) in
      record {
        held = rw (short, get-set other key new entries, apart) (h.held);
        bounded = rw short (omega arith);
      }

  pub replaced-Holds :
      (other : String) (new old : V)
      → Maps.get other entries ≡ some old
      → (other == key) ≡ false
      → Holds key value room entries
      → Holds key value room (Maps.set other new entries)
  replaced-Holds other new old found apart h = record {
    held = rw (get-set other key new entries, apart) (h.held);
    bounded =
        let b = h.bounded in let d = length-set_present other new old entries found in omega arith;
  }

  -- The key itself with another value.
  pub renewed-Holds :
      (new : V) → Holds key value room entries → Holds key new room (Maps.set key new entries)
  renewed-Holds new h = record {
    held = rw (get-set key key new entries, ==_refl key) refl;
    bounded =
        let b = h.bounded in let d = length-set_present key new value entries h.held in omega arith;
  }

  pub less_room : Holds key value (suc room) entries → Holds key value room entries
  less_room h = record { held = h.held; bounded = let b = h.bounded in omega arith }
