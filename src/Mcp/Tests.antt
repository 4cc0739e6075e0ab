-- ===== src/Mcp/Tests.antt =====
-- The theorems on the MCP server at concrete inputs.
use the_black_hole.Prelude.{
  String, List, [], ◌∷◌, some, none, true, ◌≡◌, ◌⊎◌, inl, inr, ◌↔◌, refl, eq_iff, has_suffix,
  drop_last, All, arith,
}
use the_black_hole.Prelude.Results.{Result, ok, err}
use the_black_hole.Json.{Fields, end, field, text, null}
use the_black_hole.Mcp.Types.{RpcRequest, Tool}
use the_black_hole.Mcp.Scopes.{match_scope, AnyAllows, match_scope_iff}
use the_black_hole.Mcp.Auth.{MayAdminister, extract_token}
use the_black_hole.Mcp.Tools.{list_tools, find_endpoint, endpoint_tool, resolved_name, admin_tools}
use the_black_hole.Mcp.Tools.Listing.{
  IsCallable, Has, list_tools-IsCallable, find_endpoint-list_tools,
}
use the_black_hole.Mcp.Admin.Required.{Requires, IsRefused, handle_admin_tool-Requires}
use the_black_hole.Mcp.Stdio.{answered, asked, start_stdio_mode, start_stdio_mode-keeps}
use the_black_hole.Mcp.Server.{handle_request, refusal, call_tool}
use the_black_hole.Mcp.Server.Permits.{IsPermitted, handle_request-content}
use the_black_hole.Redaction.{redact_map, redact_bytes}
use the_black_hole.Mcp.Server.Masking.{handle_request-masked}
use the_black_hole.Mcp.Server.Audit.{IsLogged, handle_request-IsLogged}
use the_black_hole.Mcp.Transport.{new_server, run_events, sse, message, worker}
use the_black_hole.Mcp.Transport.Bounds.{IsBounded, run_events-IsBounded}
use the_black_hole.Mcp.Transport.Ordinary.{NoAdmin, run_events-NoAdmin}
use the_black_hole.Mcp.Samples.{
  weather, now, codec, client, services, call, server, post, redactor, masking,
}

match_scope_iff_example :
    (match_scope "w_now" ("x" ∷ "w_*" ∷ []) ≡ true) ↔ AnyAllows "w_now" ("x" ∷ "w_*" ∷ [])
match_scope_iff_example = match_scope_iff "w_now" ("x" ∷ "w_*" ∷ [])

list_tools-IsCallable_example :
    All (IsCallable services "user" ("w_*" ∷ []) 0) (endpoint_tool codec weather now ∷ [])
unfolding list_tools has_suffix drop_last
list_tools-IsCallable_example =
    list_tools-IsCallable services "user" ("w_*" ∷ []) 0 (endpoint_tool codec weather now ∷ []) refl

find_endpoint-list_tools_example :
    (tools : List Tool) × (list_tools services "user" ("w_*" ∷ []) 0 ≡ ok tools)
    × Has (endpoint_tool codec weather now) tools
    × (resolved_name weather now ≡ "w_now")
unfolding find_endpoint match_scope has_suffix drop_last
find_endpoint-list_tools_example =
    find_endpoint-list_tools services "user" "w_now" ("w_*" ∷ []) 0 now weather refl refl

handle_admin_tool-Requires_example :
    All
      (λ t.
        Requires t "value"
        → IsRefused services t (field "key" (text "k") (field "value" null end)) 0)
      admin_tools
handle_admin_tool-Requires_example =
    handle_admin_tool-Requires services (field "key" (text "k") (field "value" null end)) "value" 0
      (λ s e. cc)

handle_request-content_example :
    (name : String) × (args : Fields) × (services.unmarshal_call "now" ≡ some (name, args))
    × IsPermitted services client name 0
unfolding handle_request has_suffix drop_last
handle_request-content_example = handle_request-content services client call server "sunny" refl

handle_request-IsLogged_example :
    ((handle_request services client call server).0 ≡ server)
    ⊎ ((name : String) × (args : Fields) × (services.unmarshal_call "now" ≡ some (name, args))
        × (refusal services client name 0 ≡ none)
        × IsLogged services client name server (
          (handle_request services client call server).0,
          (handle_request services client call server).1.outcome,
        ))
handle_request-IsLogged_example = handle_request-IsLogged services client call server (omega arith)

run_events-IsBounded_example :
    IsBounded services
      (run_events services (worker ∷ message post ∷ sse post ∷ []) (new_server services 0))
run_events-IsBounded_example =
    run_events-IsBounded services (worker ∷ message post ∷ sse post ∷ []) 0

-- The token "t" may not administer the gateway.
ordinary : MayAdminister services "t" 0 → ⊥
ordinary (inl (set, e)) = let test = (eq_iff "t" "m").1 e in cc
ordinary (inr (ct, found, on, admin)) = let test = (eq_iff "user" "admin").1 cc in cc

run_events-NoAdmin_example :
    ((run_events services (message post ∷ sse post ∷ []) server).backend ≡ 0)
    × NoAdmin services (run_events services (message post ∷ sse post ∷ []) server).sessions
unfolding extract_token run_events
run_events-NoAdmin_example =
    run_events-NoAdmin services (λ n. n ≡ 0) ((λ conn ep args s h. h), (λ s h. h)) (λ e s h. h)
      (message post ∷ sse post ∷ []) server (tt, (ordinary, tt)) refl tt

handle_request-masked_example :
    (name : String) × (args : Fields) × (raw : String) × (masking.unmarshal_call "now"
      ≡ some (name, args))
    × ((call_tool masking name (redact_map redactor args).0 0).1 ≡ ok raw)
    × ("[REDACTED:sun]" ≡ (redact_bytes redactor raw).0)
unfolding handle_request has_suffix drop_last
handle_request-masked_example =
    handle_request-masked masking redactor refl client call server "[REDACTED:sun]" refl

-- Two requests and what is no request.
abbrev typed : List (Result RpcRequest)
typed = ok call ∷ ok (record call { id = none }) ∷ err "syntax" ∷ ok call ∷ []

start_stdio_mode-keeps_example :
    (answered services (start_stdio_mode services "t" typed server).1 ≡ asked services typed)
    × ((start_stdio_mode services "t" typed server).0.backend ≡ 0)
start_stdio_mode-keeps_example =
    start_stdio_mode-keeps services (λ n. n ≡ 0) ((λ conn ep args s h. h), (λ s h. h)) "t" typed
      server (λ e. let test = (eq_iff "t" "").1 e in cc) ordinary refl
