-- ===== src/Mock/Page.antt =====
-- cmd/mock-teddycloud/main.go: the control page, and the actions that its buttons post.
use teddycloud_spotify_radio.Base.{
  ◌==◌, ℕ, List, [], ◌∷◌, ◌++◌, Option, none, some, if◌then◌else◌, Text, codes, text_eq, has_prefix,
  behind, ◌≡◌, refl, length,
}
use teddycloud_spotify_radio.Mock.{events_of}

-- The lines of the page.
abbrev page_lines : List Text
page_lines =
    codes "<!DOCTYPE html>"
    ∷ codes "<html>"
    ∷ codes "<head>"
    ∷ codes "<meta charset=\"utf-8\">"
    ∷ codes "<title>Mock Teddycloud</title>"
    ∷ codes "<style>"
    ∷ codes "body { font-family: sans-serif; margin: 2rem; }"
    ∷ codes "button { display: block; margin: 0.5rem 0; font-size: 1rem; padding: 0.6rem 1rem; }"
    ∷ codes "</style>"
    ∷ codes "</head>"
    ∷ codes "<body>"
    ∷ codes "<h1>Mock Teddycloud Control</h1>"
    ∷ codes "<p>Click a button to emit the corresponding SSE event.</p>"
    ∷ codes "<p>Controls: place/lift, and tap the side of the box to skip. The ears are the"
    ∷ codes "box's own volume control and must not change the track.</p>"
    ∷ codes
        "<form method=\"post\" action=\"/api/event?action=figurine-placed\"><button type=\"submit\">Place figurine</button></form>"
    ∷ codes
        "<form method=\"post\" action=\"/api/event?action=figurine-lifted\"><button type=\"submit\">Lift figurine</button></form>"
    ∷ codes
        "<form method=\"post\" action=\"/api/event?action=knock-forward\"><button type=\"submit\">Skip next (tap right side)</button></form>"
    ∷ codes
        "<form method=\"post\" action=\"/api/event?action=knock-backward\"><button type=\"submit\">Skip back (tap left side)</button></form>"
    ∷ codes
        "<form method=\"post\" action=\"/api/event?action=ear-big\"><button type=\"submit\">Ear pinch up (box volume)</button></form>"
    ∷ codes
        "<form method=\"post\" action=\"/api/event?action=ear-small\"><button type=\"submit\">Ear pinch down (box volume)</button></form>"
    ∷ codes "</body>"
    ∷ codes "</html>"
    ∷ []

end_lines : List Text → Text
end_lines [] = []
end_lines (l ∷ ls) = l ++ (codes "\n" ++ end_lines ls)

abbrev index_html : Text
unfolding end_lines
index_html = end_lines page_lines

-- The handler of /, for a path: the status and the page, or not found.
handle_index : Text → ℕ × Option Text
unfolding text_eq
handle_index path = if text_eq path (codes "/") then (200, some index_html) else (404, none)

-- What stands before a quote.
until_quote : Text → Text
until_quote [] = []
until_quote (c ∷ cs) = let rest = until_quote cs in if c == b'"' then [] else c ∷ rest

-- The action of a form, if a line has one.
form_action : Text → Option Text
form_action l = if has_prefix l form then some (until_quote (behind l form)) else none
  where
    form : Text
    form = codes "<form method=\"post\" action=\"/api/event?action="

more_actions : Option Text → List Text → List Text
more_actions none rest = rest
more_actions (some a) rest = a ∷ rest

-- The actions that the buttons of a page post.
actions : List Text → List Text
unfolding form_action more_actions
actions [] = []
actions (l ∷ ls) = more_actions (form_action l) (actions ls)

-- The buttons of the page, each with the number of the events that the hub sends for it.
buttons : List (Text × ℕ)
buttons = sent_for (actions page_lines)
  where
    sent_for : List Text → List (Text × ℕ)
    sent_for [] = []
    sent_for (a ∷ rest) = (a, length (events_of [] a)) ∷ sent_for rest

buttons_lem :
    buttons
    ≡ (codes "figurine-placed", 5)
      ∷ (codes "figurine-lifted", 1)
      ∷ (codes "knock-forward", 1)
      ∷ (codes "knock-backward", 1)
      ∷ (codes "ear-big", 3)
      ∷ (codes "ear-small", 3)
      ∷ []
unfolding buttons actions form_action more_actions until_quote has_prefix text_eq events_of
buttons_lem = refl
