-- ===== src/Portal/Loop/Requests.antt =====
-- What the frontend sends: who writes, where passwords go, and with which token.
use the_black_hole.Prelude.{String, List, [], ◌∷◌, none, some, false, All, ◌≡◌, ◌⊎◌}
use the_black_hole.Portal.Types.{Request, get}
use the_black_hole.Portal.World.{World}
use the_black_hole.Portal.Keeps.Writes.{IsForm, writes}
use the_black_hole.Portal.Loop.{Event, act}

-- An invariant that speaks of the requests sent only, and holds of each by itself.
module _ (P : Request → Type 0) where
  abbrev AllSent : World → Type 0
  AllSent w = All P w.sent

  abbrev SentNow : World → Request → Type 0
  SentNow w r = P r

abbrev pub IsGet : Request → Type 0
IsGet r = r.verb ≡ get

-- An event at which nobody logs in, saves or confirms a deletion.
abbrev pub IsQuiet : Event → Type 0
IsQuiet (act a) = writes a ≡ false
IsQuiet _ = Unit {0}

-- A login, with no token; or a request with the token of the session in its headers and no password in
-- its body.
abbrev pub IsProper : (token : String) → Request → Type 0
IsProper token r =
    ((r.url ≡ "/api/auth/login") × (r.bearer ≡ none)) ⊎ ((r.bearer ≡ some token) × IsForm r.payload)

-- Each request, with the token that the session had when it was sent.
abbrev pub AreProper : List Request → (held : List String) → Type 0
AreProper [] [] = Unit {0}
AreProper (r ∷ rs) (token ∷ ts) = IsProper token r × AreProper rs ts
AreProper (r ∷ rs) [] = ⊥
AreProper [] (token ∷ ts) = ⊥

abbrev ProperSent : World → Type 0
ProperSent w = AreProper w.sent w.held

abbrev ProperNow : World → Request → Type 0
ProperNow w r = IsProper w.state.token r
