-- ===== src/KeyService.antt =====
-- The guards in front of the key repository: src/service/KeyService.cpp. What the repositories
-- answer is an argument; a device that was found is given by whether its status is `active`.
pub mod Guards
pub mod Tests
use cpp_backend_server.Base.{
  ℕ, Bool, true, false, not, ◌&&◌, ◌||◌, Option, none, some, List, [], ◌∷◌, leb, ltb, ◌==◌,
  if◌then◌else◌, length, Bytes,
}
use cpp_backend_server.DatabasePool.{ℤ, pos, negsuc}
use cpp_backend_server.Router.{Uuid}

-- `KeyService::verifyDeviceId`
pub verify_device_id : Option Bool → Option Bool
verify_device_id none = none
verify_device_id (some active) = if active then some true else some false

-- `my_id != friend_id && !VerifyFriendShip(...)`
pub strangers : Uuid → Uuid → Bool → Bool
strangers my_id friend_id friends = not (my_id == friend_id) && not friends

-- `KeyService::fetchUserDevices`; `devices` is what the repository returns.
pub fetch_user_devices {ℓ} : {D : Type ℓ} → Uuid → Uuid → Bool → D → Option D
fetch_user_devices my_id friend_id friends devices =
    if strangers my_id friend_id friends then none else some devices

pub is_hex : ℕ → Bool
is_hex c = (leb 48 c && leb c 57) || (leb 97 c && leb c 102) || (leb 65 c && leb c 70)

-- `std::all_of`
pub all_hex : Bytes → Bool
all_hex [] = true
all_hex (c ∷ cs) = is_hex c && all_hex cs

is_negative : ℤ → Bool
is_negative (pos n) = false
is_negative (negsuc n) = true

bad_prekey : ℤ → Bytes → Bool
bad_prekey id key = is_negative id || not (length key == 64) || not (all_hex key)

-- Whether the loop over the keys throws.
any_bad : List (ℤ × Bytes) → Bool
any_bad [] = false
any_bad ((id, key) ∷ rest) = if bad_prekey id key then true else any_bad rest

is_active : Option Bool → Bool
is_active none = false
is_active (some active) = active

pub data Upload : Type 0 where
  -- The two `std::invalid_argument`.
  wrong_count wrong_prekey : Upload
  -- `false` without a call of the repository, and its `createNewOnetimeKey`.
  unavailable creates : Upload

-- `KeyService::uploadOneTimePrekeys`
pub upload_one_time_prekeys : Option Bool → List (ℤ × Bytes) → Upload
upload_one_time_prekeys device prekeys =
    if length prekeys == 0 || ltb 10 (length prekeys)
    then wrong_count
    else if any_bad prekeys
    then wrong_prekey
    else if is_active device
    then creates
    else unavailable

pub data Claim : Type 0 where
  not_friends device_unavailable claims : Claim

-- `KeyService::getOneTimePrekey`; `claims` is the repository's `getOneTimeKey`.
pub get_one_time_prekey : Uuid → Uuid → Bool → Option Bool → Claim
get_one_time_prekey my_id friend_id friends device =
    if strangers my_id friend_id friends
    then not_friends
    else if is_active device
    then claims
    else device_unavailable
