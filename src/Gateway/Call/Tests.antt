-- ===== src/Gateway/Call/Tests.antt =====
-- The theorems on `ExecuteCall` at concrete calls.
use the_black_hole.Prelude.{ℕ, ◌≤◌, ◌≡◌, refl, occurrences, arith}
use the_black_hole.Prelude.Results.{ok}
use the_black_hole.Cache.{new}
use the_black_hole.Gateway.Render.{render_path}
use the_black_hole.Gateway.Render.Paths.{render_path-occurrences}
use the_black_hole.Gateway.Call.{GatewayClient, execute_call}
use the_black_hole.Gateway.Call.Requests.{execute_call-IsAllowed}
use the_black_hole.Gateway.Call.Caching.{Answers, execute_call-Answers}
use the_black_hole.Gateway.Call.Sharing.{execute_call-shared}
use the_black_hole.Gateway.Samples.{environment, client, api, city, params}

render_path-occurrences_example :
    (occurrences b'/' (render_path environment.printer params.for_path "/cities/{{name}}") ≤ 2)
    × (occurrences b'?' (render_path environment.printer params.for_path "/cities/{{name}}") ≤ 0)
    × (occurrences b'#' (render_path environment.printer params.for_path "/cities/{{name}}") ≤ 0)
render_path-occurrences_example =
    render_path-occurrences environment.printer params.for_path "/cities/{{name}}"

-- The state counts: nothing is lost.
execute_call-IsAllowed_example :
    1
    ≤ (execute_call environment
        (api "c1" "bearer")
        city
        params
        (record client { outside = 1 })).0.outside
execute_call-IsAllowed_example =
    execute_call-IsAllowed environment (λ n. 1 ≤ n) (λ ref s h. omega (arith, h))
      (λ req allowed s h. omega (arith, h)) (λ req b s h. h) (api "c1" "bearer") city params
      (record client { outside = 1 }) (λ q u. (refl, refl)) (omega arith)

execute_call-Answers_example :
    Answers environment
      (api "c1" "bearer")
      city
      params
      client
      (execute_call environment (api "c1" "bearer") city params client)
execute_call-Answers_example =
    execute_call-Answers environment (api "c1" "bearer") city params client

-- The second connection has other credentials.
execute_call-shared_example :
    let after : GatewayClient ℕ =
      record (execute_call environment (api "c1" "bearer") city params client).0 { outside = 9 } in
    execute_call environment (api "c2" "custom_headers") city params after ≡ (after, ok "sunny")
unfolding execute_call new
execute_call-shared_example =
    execute_call-shared environment (api "c1" "bearer") (api "c2" "custom_headers") city params
      client 30 "sunny" 9 refl refl (omega arith) refl refl (omega arith)
