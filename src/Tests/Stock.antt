-- ===== src/Tests/Stock.antt =====
-- The result on certstore/inventory.go at one inventory.
use go_certs_manager.Base.{[], codes, false, ◌∷◌}
use go_certs_manager.Effects.Logic.{Safe}
use go_certs_manager.Inventory.{Inventory, delete, new_inventory}
use go_certs_manager.Inventory.Deleting.{IsDeleted, MayDelete, delete-IsDeleted, note_read, unread}

abbrev inventory : Inventory
inventory = new_inventory 30 (codes "tls/") (codes "Mail.Example." ∷ []) 0

delete-IsDeleted_example :
    Safe
      (MayDelete inventory (codes "mail.example") false)
      note_read
      (IsDeleted inventory (codes "mail.example") false)
      unread
      (delete inventory (codes "mail.example") false)
delete-IsDeleted_example = delete-IsDeleted inventory (codes "mail.example") false
