-- ===== src/Tests/Urls.antt =====
-- Runs of libs/net/url.c.
use one_tool.Common.{some, false, ◌≡◌, refl}
use one_tool.Common.Text.{codes}
use one_tool.Net.Url.{NetUrl, net_parse_http_url}
use one_tool.Net.Url.Parts.{written, IsUrl, net_parse_http_url-IsUrl}

-- No scheme, port or path.
abbrev bare : NetUrl
bare = record { use_tls = false; host = codes "ab"; port = codes "80"; path = codes "/" }

net_parse_http_url-IsUrl_example : IsUrl bare × (net_parse_http_url (written bare) ≡ some bare)
unfolding net_parse_http_url
net_parse_http_url-IsUrl_example = net_parse_http_url-IsUrl (codes "ab") bare refl
