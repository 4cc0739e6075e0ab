-- ===== src/Portal/Loaders/Lists/Tables.antt =====
-- What the tables show once the server has answered.
use the_black_hole.Prelude.{List, [], ap, ◌∷◌, map, some, ◌≡◌}
use the_black_hole.Portal.Types.{ClientToken, response, tokens}
use the_black_hole.Portal.World.{World, Element, Node}
use the_black_hole.Portal.Task.{Waiting, advance, catch}
use the_black_hole.Portal.Loaders.Names.{Loader}
use the_black_hole.Portal.Page.{received, set_state}
use the_black_hole.Portal.Page.Tables.{refill_content, refill_state}
use the_black_hole.Portal.Html.Rows.{token_row}
use the_black_hole.Portal.Loaders.Common.{require_ok, json_tokens}
use the_black_hole.Portal.Loaders.Lists.{show_tokens, client_tokens_reply, client_tokens_failed}

-- `loadClientTokens` starts no other function.
abbrev pub still : Loader → World → World × List (Waiting Loader)
still l w = (w, [])

-- The part of `loadClientTokens` behind its request, on a list of tokens.
abbrev pub arrived : ClientToken → List ClientToken → World → World
arrived t ts w =
    (advance still
      (catch (client_tokens_reply (response 200 (tokens (t ∷ ts)))) client_tokens_failed) w).0

-- Once the server has answered with client tokens, `STATE` has exactly these, and the table has
-- exactly one row for each of them, in their order, whatever both held before.
pub client_tokens_reply_lem :
    (t : ClientToken) (ts : List ClientToken) (w : World) (e : Element)
    → w.dom "tokens-table-body" ≡ some e
    → ((arrived t ts w).state.tokens ≡ t ∷ ts)
      × ((arrived t ts w).dom "tokens-table-body"
          ≡ some (record e { content = map Node.row (map token_row (t ∷ ts)) }))
unfolding client_tokens_reply received require_ok json_tokens set_state show_tokens
client_tokens_reply_lem t ts w e i =
    let fresh = record w { state = record (w.state) { tokens = t ∷ ts } } in
    (
      ap (λ s. s.tokens)
          (refill_state still client_tokens_failed "tokens-table-body" (map token_row (t ∷ ts))
            fresh e i),
      refill_content still client_tokens_failed "tokens-table-body" (map token_row (t ∷ ts)) fresh e
          i,
    )
