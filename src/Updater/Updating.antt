-- ===== src/Updater/Updating.antt =====
-- UpdateTo of internal/updater/updater.go: an update that the panel asks for, from its download to the binary.
use serverkit_agent.Base.{
  if◌then◌else◌, [], ◌∷◌, ◌++◌, Option, none, some, Text, codes, length, drop, has_prefix,
}
use serverkit_agent.Base.Results.{Result, success, failure}
use serverkit_agent.Updater.{Platform, UpdateError, download_update}
use serverkit_agent.Updater.Installing.{Slots, Calls, InstallError, install_unix}
use serverkit_agent.Services.Custom.{trim_suffix}

-- strings.Replace of the first place, for a text that is not empty.
unfoldable pub replace_first : Text → Text → Text → Text
replace_first [] old new = []
replace_first (c ∷ s) old new =
    let rest = replace_first s old new in
    if has_prefix (c ∷ s) old then new ++ drop (length old) (c ∷ s) else c ∷ rest

-- The panel's HTTP address, from that of its websocket.
unfoldable pub server_url : Text → Text
unfolding replace_first trim_suffix
server_url url =
    trim_suffix
      (trim_suffix
        (replace_first (replace_first url (codes "wss://") (codes "https://")) (codes "ws://")
          (codes "http://"))
        (codes "/agent/ws"))
      (codes "/agent")

pub data UpdateToError : Type 0 where
  not_downloaded : UpdateError → UpdateToError
  not_installed : InstallError → UpdateToError

abbrev pub install_error : Option InstallError → Option UpdateToError
install_error none = none
install_error (some e) = some (not_installed e)

-- The install of what was downloaded; `content` is what the extracted file holds.
unfoldable pub installed :
    Calls → (Text → Text) → Slots → Result UpdateError Text → Slots × Option UpdateToError
unfolding install_unix
installed calls content s (failure e) = (s, some (not_downloaded e))
installed calls content s (success path) =
    let r = install_unix calls (content path) s in (r.0, install_error r.1)

unfoldable pub update_to :
    Platform → Calls → (Text → Text) → Text → Text → Slots → Slots × Option UpdateToError
unfolding download_update installed
update_to host calls content url checksums_url s =
    installed calls content s (download_update host url checksums_url)
