-- ===== src/Ops/Doctor/Channels.antt =====
-- apps/server/src/ops/doctor.ts: the checks of the Telegram bot and of the enabled channels.
use koharu_suite.Prelude.{
  ℕ, ◌+◌, Bool, true, false, not, ◌||◌, Option, none, some, List, [], ◌∷◌, ◌++◌, ltb, ◌==◌,
  if◌then◌else◌, Result, ok, err, ◌>>=◌, ◌>>◌, throw_if, length,
}
use koharu_suite.Prelude.Texts.{Text, codes, text_eq}
use koharu_suite.Prelude.Int.{ℤ, pos, negsuc}
use koharu_suite.Prelude.Decimal.{show, show_ℤ}
use koharu_suite.Ops.Doctor.{
  fail, good, warn, telegram_bot, telegram_channels, DoctorCheckResult, DoctorTelegramChannel,
  DoctorTelegramBot, DoctorTelegramChat, Thrown, thrown, DoctorDependencies,
}
use koharu_suite.Ops.Doctor.Checks.{result, failure}

-- `bot.username ?? bot.id`.
abbrev bot_name : DoctorTelegramBot → Text
bot_name bot = elim bot.username [ none ↦ show bot.id | some name ↦ name ]

-- `TelegramIdentity`: the bot, where `getMe` answered, and the check.
abbrev pub TelegramIdentity : Type 0
TelegramIdentity = Option DoctorTelegramBot × DoctorCheckResult

abbrev pub max_safe_integer : ℕ
max_safe_integer = 9_007_199_254_740_991

-- `telegramIdAsNumber`. A `bigint` beyond the safe range is rounded to a number beyond it too.
unfoldable pub telegram_id_as_number : ℤ → Result Thrown ℤ
telegram_id_as_number (pos n) = do
  throw_if (ltb max_safe_integer n)
      (thrown (codes "Telegram channel ID is outside the JavaScript safe integer range"))
  ok (pos n)
telegram_id_as_number (negsuc n) = do
  throw_if (ltb max_safe_integer (n + 1))
      (thrown (codes "Telegram channel ID is outside the JavaScript safe integer range"))
  ok (negsuc n)

-- Whether an optional text is a JavaScript truth: neither absent nor empty.
abbrev pub is_given : Option Text → Bool
is_given none = false
is_given (some []) = false
is_given (some (c ∷ s)) = true

-- `failures.join('; ')`.
unfoldable pub join_failures : List Text → Text
join_failures [] = []
join_failures (f ∷ []) = f
join_failures (f ∷ g ∷ fs) = f ++ codes "; " ++ join_failures (g ∷ fs)

module _ (deps : DoctorDependencies) where
  open deps use {sanitize_plain}

  abbrev bound_check : DoctorTelegramBot → Option ℕ → DoctorCheckResult
  bound_check bot none =
      result deps telegram_bot (codes "Telegram Bot") warn
        (codes "Bot @" ++ bot_name bot ++ codes " is reachable but the database is not bound") none
  bound_check bot (some bound) =
      if not (bound == bot.id)
      then result deps telegram_bot (codes "Telegram Bot") fail
          (codes "Configured Bot does not match the Bot bound to this database") none
      else result deps telegram_bot (codes "Telegram Bot") good
          (codes "Bot @" ++ bot_name bot ++ codes " matches the database binding") none

  -- `checkTelegramBot`.
  unfoldable pub check_telegram_bot : TelegramIdentity
  check_telegram_bot = elim deps.get_me [
    | err e ↦ (none, failure deps telegram_bot (codes "Telegram Bot") e)
    | ok bot ↦ (
      some bot,
      elim deps.get_bound_telegram_bot_id [
        | ok bound ↦ bound_check bot bound
        | err e ↦ failure deps telegram_bot (codes "Telegram Bot binding") e
      ],
    )
  ]

  abbrev pub chat_failures : Result Thrown DoctorTelegramChat → List Text
  chat_failures (err (thrown reason)) =
      (codes "Telegram lookup failed: " ++ sanitize_plain reason) ∷ []
  chat_failures (ok chat) =
      (if not (text_eq chat.kind (codes "channel"))
        then (codes "Expected a channel; Telegram reports " ++ chat.kind) ∷ []
        else [])
      ++ (if not (is_given chat.username) then codes "Channel is not public" ∷ [] else [])

  abbrev pub is_administrator : Text → Bool
  is_administrator status =
      text_eq status (codes "administrator") || text_eq status (codes "creator")

  abbrev pub member_failures : Result Thrown Text → List Text
  member_failures (err (thrown reason)) =
      (codes "Administrator lookup failed: " ++ sanitize_plain reason) ∷ []
  member_failures (ok status) =
      if not (is_administrator status)
      then (codes "Bot is not an administrator (status: " ++ status ++ codes ")") ∷ []
      else []

  abbrev pub bot_failures : ℤ → Option DoctorTelegramBot → List Text
  bot_failures chat none = codes "Bot administrator status could not be verified" ∷ []
  bot_failures chat (some bot) = member_failures (deps.get_chat_member chat bot.id)

  -- `inspectChannel`.
  unfoldable pub inspect_channel :
      DoctorTelegramChannel → Option DoctorTelegramBot → Result Thrown (List Text)
  inspect_channel channel bot = do
    chat ← telegram_id_as_number channel.telegram_chat_id
    ok (chat_failures (deps.get_chat chat) ++ bot_failures chat bot)

  abbrev channel_name : DoctorTelegramChannel → Option Text → Text
  channel_name channel none = show_ℤ channel.telegram_chat_id
  channel_name channel (some []) = show_ℤ channel.telegram_chat_id
  channel_name channel (some (c ∷ name)) = b'@' ∷ c ∷ name

  abbrev pub channel_detail : DoctorTelegramChannel → List Text → Text
  channel_detail channel [] =
      channel_name channel channel.username ++ codes ": public and Bot administrator verified"
  channel_detail channel (f ∷ fs) =
      channel_name channel channel.username ++ codes ": " ++ join_failures (f ∷ fs)

  abbrev pub failure_step : List Text → ℕ
  failure_step [] = 0
  failure_step (f ∷ fs) = 1

  -- The loop over the channels: how many failed, and the details.
  unfoldable pub inspect_channels :
      Option DoctorTelegramBot → List DoctorTelegramChannel → Result Thrown (ℕ × List Text)
  inspect_channels bot [] = ok (0, [])
  inspect_channels bot (c ∷ cs) = do
    failures ← inspect_channel c bot
    rest ← inspect_channels bot cs
    ok (failure_step failures + rest.0, channel_detail c failures ∷ rest.1)

  abbrev pub channels_result : ℕ → ℕ × List Text → DoctorCheckResult
  channels_result total (failed, details) =
      if ltb 0 failed
      then result deps telegram_channels (codes "Telegram channels") fail
          (show failed
            ++ codes " of "
            ++ show total
            ++ codes " enabled channel(s) failed verification")
          (some details)
      else result deps telegram_channels (codes "Telegram channels") good
          (show total ++ codes " enabled channel(s) verified") (some details)

  -- `checkTelegramChannels`; an id that is no safe integer is thrown past it.
  unfoldable pub check_telegram_channels :
      Option DoctorTelegramBot → Result Thrown DoctorCheckResult
  check_telegram_channels bot = elim deps.list_enabled_channels [
    | err e ↦ ok (failure deps telegram_channels (codes "Telegram channels") e)
    | ok [] ↦ ok (
        result deps telegram_channels (codes "Telegram channels") warn
          (codes "No channels are enabled; run kodama channel add or kodama channel enable") none)
    | ok (c ∷ cs) ↦ do
      found ← inspect_channels bot (c ∷ cs)
      ok (channels_result (length (c ∷ cs)) found)
  ]
