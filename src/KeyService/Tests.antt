-- ===== src/KeyService/Tests.antt =====
-- The witness of the property of the key service.
use cpp_backend_server.Base.{◌≡◌, refl, true, some, List, [], ◌∷◌, Bytes, codes}
use cpp_backend_server.DatabasePool.{ℤ, pos}
use cpp_backend_server.KeyService.{
  upload_one_time_prekeys, creates, any_bad, bad_prekey, is_negative, is_active, is_hex, all_hex,
}
use cpp_backend_server.KeyService.Guards.{IsChecked, upload_one_time_prekeys-IsChecked}

abbrev key : Bytes
key = codes "00112233445566778899aabbccddeeff00112233445566778899AABBCCDDEEFF"

abbrev keys : List (ℤ × Bytes)
keys = (pos 1, key) ∷ (pos 0, key) ∷ []

keys_reach : upload_one_time_prekeys (some true) keys ≡ creates
unfolding upload_one_time_prekeys any_bad bad_prekey is_negative is_active all_hex is_hex
keys_reach = refl

upload_one_time_prekeys-IsChecked_example : IsChecked (some true) keys
upload_one_time_prekeys-IsChecked_example =
    upload_one_time_prekeys-IsChecked (some true) keys keys_reach
