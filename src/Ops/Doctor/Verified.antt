-- ===== src/Ops/Doctor/Verified.antt =====
-- What it takes for the enabled channels to pass the check of apps/server/src/ops/doctor.ts.
use koharu_suite.Prelude.{
  ℕ, ◌+◌, ◌≡◌, refl, sym, ap, ◌∙◌, subst, ◌⊎◌, inl, inr, true, Option, none, some, List, [], ◌∷◌,
  ◌++◌, arith, ltb, Result, ok, err, ◌>>=◌, length, All, All-map, ltb→ge, unchain, unthrow,
  ok-injective, Bool-cases,
}
use koharu_suite.Prelude.Texts.{Text, codes, text_eq, eq_of_text_eq}
use koharu_suite.Prelude.Int.{ℤ, pos, negsuc}
use koharu_suite.Ops.Doctor.{
  good, DoctorCheckResult, DoctorTelegramChannel, DoctorTelegramBot, DoctorTelegramChat, Thrown,
  thrown, DoctorDependencies,
}
use koharu_suite.Ops.Doctor.Channels.{
  inspect_channel, inspect_channels, check_telegram_channels, telegram_id_as_number, chat_failures,
  bot_failures, member_failures, is_given, failure_step, channels_result,
}

pub record IsVerified (deps : DoctorDependencies) (bot : DoctorTelegramBot)
    (c : DoctorTelegramChannel) : Type 0 where
  pub safe : telegram_id_as_number c.telegram_chat_id ≡ ok c.telegram_chat_id
  pub chat : DoctorTelegramChat
  pub found : deps.get_chat c.telegram_chat_id ≡ ok chat
  pub channel : chat.kind ≡ codes "channel"
  pub has_name : is_given chat.username ≡ true
  pub status : Text
  pub member : deps.get_chat_member c.telegram_chat_id bot.id ≡ ok status
  pub administrator : (status ≡ codes "administrator") ⊎ (status ≡ codes "creator")

append-empty : (xs ys : List Text) → xs ++ ys ≡ [] → (xs ≡ []) × (ys ≡ [])
append-empty [] ys h = (refl, h)
append-empty (x ∷ xs) ys h = absurd (cc)

telegram_id_as_number-same : (id chat : ℤ) → telegram_id_as_number id ≡ ok chat → chat ≡ id
unfolding telegram_id_as_number
telegram_id_as_number-same (pos n) chat h = unthrow _ _ _ h λ t h1. sym (ok-injective h1)
telegram_id_as_number-same (negsuc n) chat h = unthrow _ _ _ h λ t h1. sym (ok-injective h1)

module _ (deps : DoctorDependencies) where
  chat_failures-none :
      (found : Result Thrown DoctorTelegramChat)
      → chat_failures deps found ≡ []
      → (chat : DoctorTelegramChat) × (found ≡ ok chat)
        × (chat.kind ≡ codes "channel")
        × (is_given chat.username ≡ true)
  chat_failures-none (err (thrown reason)) h = absurd (cc)
  chat_failures-none (ok chat) h = elim (Bool-cases (text_eq chat.kind (codes "channel"))) [
    | inl same ↦ elim (Bool-cases (is_given chat.username)) [
      | inl given ↦ (chat, refl, eq_of_text_eq _ _ same, given)
      | inr absent ↦ absurd (ground (arith, h, same, absent))
    ]
    | inr different ↦ absurd (ground (arith, h, different))
  ]

  member_failures-none :
      (answer : Result Thrown Text)
      → member_failures deps answer ≡ []
      → (status : Text) × (answer ≡ ok status)
        × ((status ≡ codes "administrator") ⊎ (status ≡ codes "creator"))
  member_failures-none (err (thrown reason)) h = absurd (cc)
  member_failures-none (ok status) h = elim (Bool-cases (text_eq status (codes "administrator"))) [
    | inl first ↦ (status, refl, inl (eq_of_text_eq _ _ first))
    | inr not_first ↦ elim (Bool-cases (text_eq status (codes "creator"))) [
      | inl second ↦ (status, refl, inr (eq_of_text_eq _ _ second))
      | inr not_second ↦ absurd (ground (arith, h, not_first, not_second))
    ]
  ]

  inspected-IsVerified :
      (c : DoctorTelegramChannel) (bot : Option DoctorTelegramBot)
      → telegram_id_as_number c.telegram_chat_id ≡ ok c.telegram_chat_id
      → chat_failures deps (deps.get_chat c.telegram_chat_id) ≡ []
      → bot_failures deps c.telegram_chat_id bot ≡ []
      → (b : DoctorTelegramBot) × (bot ≡ some b) × IsVerified deps b c
  inspected-IsVerified c none safe h k = absurd (cc)
  inspected-IsVerified c (some b) safe h k =
      let (chat, found, channel, has_name) = chat_failures-none _ h in
      let (status, member, administrator) = member_failures-none _ k in
      (
        b,
        refl,
        record {
          safe = safe;
          chat = chat;
          found = found;
          channel = channel;
          has_name = has_name;
          status = status;
          member = member;
          administrator = administrator;
        },
      )

  inspect_channel-IsVerified :
      (c : DoctorTelegramChannel) (bot : Option DoctorTelegramBot)
      → inspect_channel deps c bot ≡ ok []
      → (b : DoctorTelegramBot) × (bot ≡ some b) × IsVerified deps b c
  unfolding inspect_channel
  inspect_channel-IsVerified c bot h = unchain _ _ h λ chat converted answered.
      let same = telegram_id_as_number-same c.telegram_chat_id chat converted in
      let (h, k) = append-empty _ _ (
        subst (λ i. chat_failures deps (deps.get_chat i) ++ bot_failures deps i bot ≡ []) same
          (ok-injective answered)) in
      inspected-IsVerified c bot (converted ∙ ap ok same) h k

  no_failure : (fs : List Text) (n : ℕ) → failure_step deps fs + n ≡ 0 → (fs ≡ []) × (n ≡ 0)
  no_failure [] n h = (refl, omega arith)
  no_failure (f ∷ fs) n h = absurd (omega arith)

  inspect_channels-clean :
      (bot : Option DoctorTelegramBot) (cs : List DoctorTelegramChannel) (found : ℕ × List Text)
      → inspect_channels deps bot cs ≡ ok found
      → found.0 ≡ 0
      → All (λ c. inspect_channel deps c bot ≡ ok []) cs
  unfolding inspect_channels
  inspect_channels-clean bot [] found h zero' = tt
  inspect_channels-clean bot (c ∷ cs) found h zero' = unchain _ _ h λ failures inspected h1.
      unchain _ _ h1 λ rest others h2.
        let (none', zero'') =
          no_failure failures rest.0 (ap (λ r. r.0) (ok-injective h2) ∙ zero') in
        (inspected ∙ ap ok none', inspect_channels-clean bot cs rest others zero'')

  channels_result-good :
      (total : ℕ) (found : ℕ × List Text)
      → (channels_result deps total found).status ≡ good
      → found.0 ≡ 0
  channels_result-good total (failed, details) h = elim (Bool-cases (ltb 0 failed)) [
    | inl some' ↦ absurd (ground (arith, h, some'))
    | inr none' ↦ omega (arith, ltb→ge 0 failed none')
  ]

check_telegram_channels-listed :
    (deps : DoctorDependencies) (bot : Option DoctorTelegramBot) (c : DoctorTelegramChannel)
    (cs : List DoctorTelegramChannel)
    → deps.list_enabled_channels ≡ ok (c ∷ cs)
    → check_telegram_channels deps bot ≡ (
        inspect_channels deps bot (c ∷ cs) >>= λ found.
        ok (channels_result deps (length (c ∷ cs)) found))
unfolding check_telegram_channels
check_telegram_channels-listed deps bot c cs listed = rw listed refl

-- When some channels are enabled and their check is good, the bot has answered, and each of them has
-- a safe id, is found as a channel with a name, and has the bot as its administrator or creator.
pub check_telegram_channels-IsVerified :
    (deps : DoctorDependencies) (bot : Option DoctorTelegramBot) (c : DoctorTelegramChannel)
    (cs : List DoctorTelegramChannel) (r : DoctorCheckResult)
    → deps.list_enabled_channels ≡ ok (c ∷ cs)
    → check_telegram_channels deps bot ≡ ok r
    → r.status ≡ good
    → All (λ d. (b : DoctorTelegramBot) × (bot ≡ some b) × IsVerified deps b d) (c ∷ cs)
check_telegram_channels-IsVerified deps bot c cs r listed h status =
    unchain (inspect_channels deps bot (c ∷ cs)) _
      (sym (check_telegram_channels-listed deps bot c cs listed) ∙ h)
      λ found inspected h1.
        let zero' =
          channels_result-good deps (length (c ∷ cs)) found
            (ap (λ x. x.status) (ok-injective h1) ∙ status) in
        All-map _ _ (λ d. inspect_channel-IsVerified deps d bot) (c ∷ cs)
          (inspect_channels-clean deps bot (c ∷ cs) found inspected zero')
