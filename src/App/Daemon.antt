-- ===== src/App/Daemon.antt =====
-- src/app/daemon.rs: what the daemon answers to a request. The argument parser and the text of an
-- error are parameters.
use wsmr.Base.{not, List, [], ◌∷◌, ◌++◌, if◌then◌else◌, is_empty, keep}
use wsmr.Base.Text.{Text, codes, text_eq, split, join}
use wsmr.Error.{Error, Result, ok, err, ◌>>=◌}
use wsmr.Units.Templates.Quote.{shlex_join}
use wsmr.App.Launch.{AppOpts}

-- The arguments of a request.
unfoldable pub request_args : Text → List Text
unfolding split
request_args line = keep (λ s. not (is_empty s)) (split 0 line)

shquote : Text → Text
unfolding shlex_join
shquote s = shlex_join (s ∷ [])

in_background : List (List Text) → List Text
unfolding shlex_join
in_background [] = codes "wait" ∷ []
in_background (a ∷ argvs) = (shlex_join a ++ codes " &") ∷ in_background argvs

-- One instance replaces the client's shell; several run beside each other.
unfoldable pub commands : List (List Text) → Text
unfolding in_background shlex_join join
commands (a ∷ []) = codes "exec " ++ shlex_join a
commands [] = join (codes " ") (in_background [])
commands (a ∷ b ∷ argvs) = join (codes " ") (in_background (a ∷ b ∷ argvs))

-- The daemon stops without an answer, or goes on with one.
pub data Response : Type 0 where
  stopping : Response
  reply : Text → Response

module _ (parse_app : List Text → Result AppOpts) (resolve : AppOpts → Result (List (List Text)))
    (show : Error → Text) where
  unfoldable pub handle_app : List Text → Result Text
  unfolding commands
  handle_app args =
      parse_app (codes "wsmr" ∷ args) >>= λ opts. resolve opts >>= λ argvs. ok (commands argvs)

  reply_or_error : Result Text → Response
  unfolding shquote
  reply_or_error (ok out) = reply out
  reply_or_error (err e) =
      reply (codes "error " ++ (shquote (codes "Error: " ++ show e) ++ codes " 1"))

  -- The body of the loop of `run`, on the arguments of a request.
  unfoldable pub respond : List Text → Response
  unfolding handle_app reply_or_error shquote text_eq join
  respond [] = reply (codes "error 'No args given!' 2")
  respond (command ∷ rest) =
      if text_eq command (codes "stop")
      then stopping
      else if text_eq command (codes "ping")
      then reply (codes "pong")
      else if text_eq command (codes "app")
      then reply_or_error (handle_app (command ∷ rest))
      else reply (
          codes "error "
          ++ (shquote (codes "Invalid arguments: " ++ join (codes " ") (command ∷ rest))
              ++ codes " 2"))
