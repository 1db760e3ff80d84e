-- ===== src/Models/Tests.antt =====
-- Objects of the class `Users`, stored and updated.
use cppadmin.Base.{[], ◌∷◌, some, true}
use cppadmin.Models.Users.{Users, empty}

abbrev user : Users
user = record empty { id = some (1 ∷ []); email = some (2 ∷ []); blocked = some true }
