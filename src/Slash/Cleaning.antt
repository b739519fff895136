-- ===== src/Slash/Cleaning.antt =====
-- src/mattermost/slash-commands.ts: what the cleanup at the end of a registration deletes.
use mathlib.Core.List.{Memᴰ}
use mathlib.Core.List.Memᴰ
use openclaw_mattermost_cust.Base.{◌≡◌, String, some, List}
use openclaw_mattermost_cust.Base.Text.{trim}
use openclaw_mattermost_cust.Slash.Requests.{Command, Request, deletes}

-- The bot created the command.
abbrev pub IsOf : String → Command → Type 0
IsOf creator c = (id : String) × (c.creator_id ≡ some id) × (trim id ≡ creator)

-- A command of the bot that is listed under the trigger is asked to be deleted.
abbrev pub IsCleaned : String → List Command → String → List Request → Type 0
IsCleaned creator listed trigger sent =
    (d : Command) × Memᴰ d listed
    × (d.trigger ≡ trigger)
    × IsOf creator d
    × Memᴰ (deletes d.id) sent
