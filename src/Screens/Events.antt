-- ===== src/Screens/Events.antt =====
-- web/src/pages/Events.tsx: the detail of an event, and the rows that the filters leave.
use sentinel_edr.Common.{
  ℕ, Bool, ◌&&◌, ◌||◌, Option, none, some, List, [], ◌∷◌, ◌++◌, filter, if◌then◌else◌, String,
  ◌===◌, string_same, list_same, nat_same,
}
use sentinel_edr.Common.Text.{Text, codes, trim, join, to_lower, includes}
use sentinel_edr.Model.{Event, Process, FileInfo, NetInfo, UsbInfo, AuthInfo, DlpInfo}
use sentinel_edr.Format.{bytes, text_of, text_or, shown}
use sentinel_edr.Screens.{severity_name}

-- `detail` of Events.tsx: the first part that tells something.
abbrev sent : Option ℕ → Text
sent none = []
sent (some n) = if n === 0 then [] else codes "↑" ++ bytes (some n)

abbrev spaced : List Text → Text
spaced ts = join (codes " ") ts

abbrev pub or_next : Text → Text → Text → Text
or_next [] t next = next
or_next (c ∷ s) t next = t

abbrev of_process : Option Process → Text → Text
of_process none next = next
of_process (some p) next = or_next (text_of p.cmdline) (text_of p.cmdline) next

abbrev of_file : Option FileInfo → Text → Text
of_file none next = next
of_file (some f) next = or_next (text_of f.path) (spaced (text_of f.op ∷ text_of f.path ∷ [])) next

abbrev of_network : Option NetInfo → Text → Text
of_network none next = next
of_network (some n) next =
    or_next (text_of n.domain) (spaced (text_of n.domain ∷ sent n.bytes_out ∷ [])) next

abbrev of_usb : Option UsbInfo → Text → Text
of_usb none next = next
of_usb (some u) next = trim (spaced (text_of u.vendor ∷ text_of u.product ∷ text_of u.serial ∷ []))

abbrev of_auth : Option AuthInfo → Text → Text
of_auth none next = next
of_auth (some a) next =
    text_of a.method
    ++ (codes " from "
        ++ (text_or (text_of a.source_ip) (codes "local") ++ (codes " → " ++ text_of a.result)))

abbrev of_dlp : Option DlpInfo → Text → Text
of_dlp none next = next
of_dlp (some d) next = shown d.classifier ++ (codes " via " ++ shown d.channel)

unfoldable pub detail : Event → Text
detail e = of_process e.process (
    of_file e.file
      (of_network e.network (of_usb e.usb (of_auth e.auth (of_dlp e.dlp (text_of e.message))))))

-- A missing user or message stands as `undefined` in the text that is searched.
abbrev pub blob : Event → Text
blob e = spaced (shown e.message ∷ detail e ∷ shown e.user ∷ codes e.hostname ∷ [])

abbrev pub is_chosen : String → String → Bool
is_chosen s d = s === "" || d === s

unfoldable pub event_rows : Text → String → String → List Event → List Event
event_rows q cat sev events =
    filter
      (λ e.
        is_chosen cat e.category
        && is_chosen sev (severity_name e.severity)
        && (q === [] || includes (to_lower q) (to_lower (blob e))))
      events
