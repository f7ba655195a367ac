-- ===== src/Tests/Executors.antt =====
-- The registration of an executor.
use background_jobs.Prelude.{Bool, true, [], ◌∷◌, Map, refl}
use background_jobs.Registry.{Plugin, register}
use background_jobs.Registry.Laws.{Registers, register-Registers}
use background_jobs.Tests.Definitions.{plain}

abbrev python : Plugin Bool
python = record { type = "PYTHON"; rest = true }

abbrev table : Map (Plugin Bool)
table = ("SCRIPT", record { type = "SCRIPT"; rest = true }) ∷ []

register_example :
    Registers plain (λ b. b) (λ p. p.rest) python table (register plain (λ b. b) python table)
register_example = register-Registers plain (λ b. b) (λ p. p.rest) python table refl
