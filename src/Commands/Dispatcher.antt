-- ===== src/Commands/Dispatcher.antt =====
-- brain/application/command_dispatcher.py: the table of handlers. A handler acts on the world
-- outside the queue, may enqueue further commands, and returns or raises.
use development_brain.Prelude.{Bool, true, false, none, some, List, [], ◌++◌}
use development_brain.Prelude.Dict
use development_brain.Prelude.Dict.{Dict}
use development_brain.Prelude.Object.{Object}
use development_brain.Prelude.Text.{codes}
use development_brain.Errors.{PyException, Result, err}
use development_brain.Commands.{CommandType, CommandEnvelope, command_type_eq, value}

-- What a handler did: its result, the commands that it enqueued, the world that it left.
pub record Effect (W : Type 0) : Type 0 where
  pub result : Result Object
  pub enqueued : List CommandEnvelope
  pub world : W

abbrev pub CommandHandler : Type 0 → Type 0
CommandHandler W = CommandEnvelope → W → Effect W

pub record CommandDispatcher (W : Type 0) : Type 0 where
  pub handlers : Dict CommandType (CommandHandler W)

unfoldable pub handler_not_found : CommandType → PyException
unfolding value
handler_not_found t = record {
  type_name = codes "CommandHandlerNotFound";
  text = codes "no handler for command " ++ codes (value t);
}

module _ {W : Type 0} where
  unfoldable pub register :
      CommandDispatcher W → CommandType → CommandHandler W → CommandDispatcher W
  register d t h = record d { handlers = Dict.insert d.handlers t h }

  unfoldable pub unregister : CommandDispatcher W → CommandType → CommandDispatcher W
  unregister d t = record d { handlers = Dict.remove d.handlers t }

  unfoldable pub has_handler : CommandDispatcher W → CommandType → Bool
  has_handler d t = elim (Dict.get d.handlers t) [ none ↦ false | some h ↦ true ]

  unfoldable pub dispatch : CommandDispatcher W → CommandHandler W
  dispatch d c w = elim (Dict.get d.handlers c.command_type) [
    | none ↦ record { result = err (handler_not_found c.command_type); enqueued = []; world = w }
    | some h ↦ h c w
  ]
