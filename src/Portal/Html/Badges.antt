-- ===== src/Portal/Html/Badges.antt =====
-- The status badges of the settings page.
use the_black_hole.Prelude.{String, none, some, ◌===◌, ◌<>◌, if◌then◌else◌, is_set}
use the_black_hole.Portal.Types.{Settings}
use the_black_hole.Portal.Html.{escape_html}

-- `statusBadge`
unfoldable pub status_badge : (modifier_class extra_style label : String) → String
unfolding escape_html
status_badge modifier_class extra_style label =
    "<span class=\"badge-status"
    <> (if is_set modifier_class then " " <> modifier_class else "")
    <> "\""
    <> (if is_set extra_style then " style=\"" <> extra_style <> "\"" else "")
    <> ">"
    <> escape_html label
    <> "</span>"

-- `tls_mode`, or what the older fields say.
unfoldable pub tls_mode_of : Settings → String
tls_mode_of s = if is_set s.tls_mode then s.tls_mode else elim s.tls_enabled [
  | some b ↦ if b then "pod" else "none"
  | none ↦ if is_set s.tls_cert_path then "pod" else "none"
]

-- `renderTlsStatusBadge`
unfoldable pub render_tls_status_badge : Settings → String
unfolding status_badge tls_mode_of
render_tls_status_badge s =
    let mode = tls_mode_of s in
    if mode === "pod"
    then status_badge "active" "" "ENCRYPTED (HTTPS, pod TLS 1.3)"
    else if mode === "edge"
    then status_badge "active" "" "ENCRYPTED (TLS at ingress)"
      <> " <span class=\"text-muted\">External traffic is TLS-terminated at the ingress</span>"
    else status_badge "disabled" "" "UNENCRYPTED (HTTP)" <> " (Set TLS_CERT_PATH to secure)"

-- `mtls_mode`, or what the older fields say.
unfoldable pub mtls_mode_of : Settings → String
mtls_mode_of s = if is_set s.mtls_mode then s.mtls_mode else elim s.mtls_enabled [
  | some b ↦ if b then "pod" else "off"
  | none ↦ if is_set s.client_ca_path then "required" else "off"
]

-- `renderMtlsStatusBadge`
unfoldable pub render_mtls_status_badge : Settings → String
unfolding status_badge mtls_mode_of
render_mtls_status_badge s =
    let mode = mtls_mode_of s in
    if mode === "required"
    then status_badge "active" "" "mTLS REQUIRED"
    else if mode === "optional"
    then status_badge ""
        ("background: hsla(45, 90%, 50%, 0.15); color: var(--warning); "
          <> "border: 1px solid hsla(45, 90%, 50%, 0.3);")
        "mTLS OPTIONAL"
      <> " <span class=\"text-muted\">Clients may present a client certificate; "
      <> "token auth still accepted</span>"
    else if mode === "pod"
    then status_badge "active" "" "mTLS ENABLED (pod)"
    else status_badge "disabled" "" "mTLS DISABLED"
      <> " (Clients authenticated via HTTP Token only)"
