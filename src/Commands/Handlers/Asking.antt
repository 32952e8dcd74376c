-- ===== src/Commands/Handlers/Asking.antt =====
-- thaum/handlers.py: a message that asks for help opens a room with the summary that it names.
use thaum.Prelude.{
  ℕ, ◌≤◌, ◌≡◌, refl, ap, ◌∙◌, Bool, true, false, ◌&&◌, none, some, List, [], ◌∷◌, ◌++◌, arith,
  if◌then◌else◌, All, All-append,
}
use thaum.Text.{Text, codes, truthy, is_space, lstrip, strip, strip_opt, has_char}
use thaum.Jira.Payload.{normal}
use thaum.Engine.{create_incident_room}
use thaum.Routes.{Route}
use thaum.Routes.Dispatch.{keep, chosen, dispatch-hears_all, dispatch-first}
use thaum.Commands.Patterns.{
  fold, after_word, rest_of_line, after_colon, message_tail, match_word, match_alert, spaced_id,
  match_ack, match_implode, match_usage, first_word, spaced_line, match_unknown,
}
use thaum.Commands.Card.{incident_prompt_card}
use thaum.Commands.Handlers.{
  CommandBot, Platform, MessageContext, caught, send_prompt, handle_help_emergency, Handler,
  matched, found, help_route, emergency_route, alert_route, ack_route, route_if,
  bind_thaum_handlers, run_route, on_message,
}

rest_of_line-one : (s : Text) → has_char 10 s ≡ false → rest_of_line s ≡ some s
unfolding has_char rest_of_line
rest_of_line-one [] no_newline = refl
rest_of_line-one (c ∷ []) no_newline = ground arith
rest_of_line-one (c ∷ d ∷ s) no_newline = ground (arith, rest_of_line-one (d ∷ s))

-- What the pattern of `help` takes from a line.
match_word-help :
    (s : Text)
    → has_char 10 s ≡ false
    → lstrip s ≡ s
    → match_word (codes "help") (codes "help: " ++ s) ≡ some (some s)
unfolding match_word after_word fold message_tail after_colon lstrip is_space
match_word-help s one_line trimmed = rw (trimmed, rest_of_line-one s one_line) refl

module _ (p : Platform) (bot : CommandBot) (m : MessageContext) where
  route_if-later :
      (k : ℕ) (b : Bool) (r : Route Handler)
      → k ≤ r.priority
      → All (λ s. k ≤ s.priority) (route_if p bot m b r)
  route_if-later k true r h = (h, tt)
  route_if-later k false r h = tt

-- A message `help: <summary>` of one line opens a room for the summary, without the spaces at its end,
-- under the normal priority and in the sender's name, whatever other commands the bot has.
pub on_message-help :
    (p : Platform) (bot : CommandBot) (m : MessageContext) (summary : Text)
    → has_char 10 summary ≡ false
    → lstrip summary ≡ summary
    → truthy (strip summary) ≡ true
    → on_message p bot m (codes "help: " ++ summary)
      ≡ caught (create_incident_room p.chat bot.incident m.date (strip summary) m.person normal)
unfolding on_message bind_thaum_handlers handle_help_emergency strip_opt
on_message-help p bot m summary one_line trimmed has_text =
    let text = codes "help: " ++ summary in
    let matches = match_word-help summary one_line trimmed in
    ap (run_route p bot m text) (
      dispatch-first text (help_route p bot m) _
        (All-append _ (route_if p bot m bot.high_pri_on (emergency_route p bot m)) _
          (route_if-later p bot m 10 bot.high_pri_on (emergency_route p bot m) (omega arith))
          (All-append _ (route_if p bot m bot.send_alerts (alert_route p bot m)) _
            (route_if-later p bot m 10 bot.send_alerts (alert_route p bot m) (omega arith))
            (All-append _
              (route_if p bot m (bot.send_alerts && bot.supports_acknowledge) (ack_route p bot m)) _
              (route_if-later p bot m 10 (bot.send_alerts && bot.supports_acknowledge)
                (ack_route p bot m) (omega arith))
              ((omega arith), ((omega arith), ((omega arith), tt))))))
        (ap found matches))
    ∙ ap (λ o. matched o (handle_help_emergency p bot m false)) matches
    ∙ ap
        (λ b.
          if b
          then caught
              (create_incident_room p.chat bot.incident m.date (strip summary) m.person normal)
          else send_prompt p m (incident_prompt_card p.templates bot.card false))
        has_text

-- A line feed with more after it.
rest_of_line-two : (a b : Text) (d : ℕ) → rest_of_line (a ++ 10 ∷ d ∷ b) ≡ none
unfolding rest_of_line
rest_of_line-two [] b d = refl
rest_of_line-two (c ∷ []) b d = ground (arith, rest_of_line-two [] b d)
rest_of_line-two (c ∷ e ∷ a) b d = ground (arith, rest_of_line-two (e ∷ a) b d)

module _ (p : Platform) (bot : CommandBot) (m : MessageContext) where
  none-chosen :
      (text : Text) (rs : List (Route Handler))
      → All (λ r. r.pattern text ≡ false) rs
      → chosen text rs none ≡ none
  unfolding chosen keep
  none-chosen text [] h = refl
  none-chosen text (r ∷ rs) (h, hs) = rw (h, none-chosen text rs hs) refl

  route_if-misses :
      (b : Bool) (r : Route Handler) (text : Text)
      → r.pattern text ≡ false
      → All (λ s. s.pattern text ≡ false) (route_if p bot m b r)
  route_if-misses true r text h = (h, tt)
  route_if-misses false r text h = tt

-- A message `help: <summary>` whose summary has a second line matches no command, not even the one for
-- unknown commands: nothing happens and nothing is said.
pub on_message-two_lines :
    (p : Platform) (bot : CommandBot) (m : MessageContext) (c d : ℕ) (a b : Text)
    → is_space c ≡ false
    → on_message p bot m (codes "help: " ++ c ∷ (a ++ 10 ∷ d ∷ b)) ≡ ([], some tt)
unfolding on_message bind_thaum_handlers match_word after_word fold message_tail after_colon lstrip
    is_space match_alert match_ack spaced_id match_implode match_usage match_unknown first_word
    spaced_line
on_message-two_lines p bot m c d a b word =
    let text = codes "help: " ++ c ∷ (a ++ 10 ∷ d ∷ b) in
    let cut = rest_of_line-two (c ∷ a) b d in
    ap (run_route p bot m text) (
      dispatch-hears_all text (bind_thaum_handlers p bot m)
      ∙ none-chosen p bot m text (bind_thaum_handlers p bot m) (
        rw (word, cut) refl,
        All-append _ (route_if p bot m bot.high_pri_on (emergency_route p bot m)) _
            (route_if-misses p bot m bot.high_pri_on (emergency_route p bot m) text refl)
            (All-append _ (route_if p bot m bot.send_alerts (alert_route p bot m)) _
              (route_if-misses p bot m bot.send_alerts (alert_route p bot m) text refl)
              (All-append _
                (route_if p bot m (bot.send_alerts && bot.supports_acknowledge) (ack_route p bot m))
                _
                (route_if-misses p bot m (bot.send_alerts && bot.supports_acknowledge)
                  (ack_route p bot m) text refl)
                (refl, (refl, (rw (word, cut) refl, tt))))),
      ))
