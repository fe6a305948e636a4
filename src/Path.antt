-- ===== src/Path.antt =====
-- source/Path.cpp: what a path says of the service that serves it. `isPathMidi`, which Path.h
-- declares, is defined nowhere; Path.cpp defines `isMidi`.
mod Service
mod Tests
use nfdecoder.Base.{
  ltb, Bool, true, false, if◌then◌else◌, ◌&&◌, ◌||◌, none, some, ◌++◌, take, drop, length,
}
use nfdecoder.Base.Text.{Text, codes, text_eq, find?}

-- `path.size() > prefix.size() && path.substr(0, prefix.size()) == prefix`
unfoldable pub goes_on_from : Text → Text → Bool
unfolding text_eq
goes_on_from prefix path =
    ltb (length prefix) (length path) && text_eq (take (length prefix) path) prefix

pub is_midi : Text → Bool
unfolding goes_on_from
is_midi path = goes_on_from (codes "midi:") path

abbrev pub http_protocol : Text
http_protocol = codes "http://"

abbrev pub https_protocol : Text
https_protocol = codes "https://"

abbrev pub soundcloud_domain : Text
soundcloud_domain = codes "soundcloud.com"

abbrev pub soundcloud_api_domain : Text
soundcloud_api_domain = codes "api.soundcloud.com"

-- `path.find(part) != std::string::npos`
unfoldable pub holds : Text → Text → Bool
unfolding find?
holds part path = elim (find? part path) [ some _ ↦ true | none ↦ false ]

-- `mangled_path`
unfoldable pub mangled : Text → Text
unfolding holds
mangled path =
    if holds http_protocol path
    then drop (length http_protocol) path
    else if holds https_protocol path
    then drop (length https_protocol) path
    else path

unfoldable pub is_path_soundcloud : Text → Bool
unfolding mangled goes_on_from
is_path_soundcloud path =
    goes_on_from soundcloud_domain (mangled path)
    || goes_on_from soundcloud_api_domain (mangled path)
