-- ===== src/Path/Tests.antt =====
-- Examples for paths.
use nfdecoder.Base.{◌≡◌, refl, ◌↔◌, ◌⊎◌, inr, true, false}
use nfdecoder.Base.Text.{codes}
use nfdecoder.Path.{holds, is_path_soundcloud, soundcloud_domain, soundcloud_api_domain}
use nfdecoder.Path.Service.{GoesOn, IsAddress, is_path_soundcloud_lem}

-- The host is not delimited, and an address that names another one is cut in the wrong place.
other_host : is_path_soundcloud (codes "http://soundcloud.com.example.org/a") ≡ true
unfolding is_path_soundcloud
other_host = refl

nested_address : is_path_soundcloud (codes "https://soundcloud.com/a?from=http://b") ≡ false
unfolding is_path_soundcloud
nested_address = refl

is_address : IsAddress (codes "https://soundcloud.com/a") (codes "soundcloud.com/a")
unfolding IsAddress holds
is_address = inr (refl, refl)

is_path_soundcloud_lem_example : (is_path_soundcloud (codes "https://soundcloud.com/a") ≡ true) ↔ (
    GoesOn soundcloud_domain (codes "soundcloud.com/a")
    ⊎ GoesOn soundcloud_api_domain (codes "soundcloud.com/a"))
is_path_soundcloud_lem_example =
    is_path_soundcloud_lem (codes "https://soundcloud.com/a") (codes "soundcloud.com/a") is_address
