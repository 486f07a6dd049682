-- ===== src/Alembic/Versions/Columns.antt =====
-- The columns that the revisions write out again and again.
use glacis.Base.{Bool, true, false, none, some, Text, codes}
use glacis.Alembic.Schema.{ColumnType, uuid, timestamptz, OnDelete, Column}

-- `sa.Column(name, type, nullable=…)`
abbrev pub column : Text → ColumnType → Bool → Column
column name column_type nullable = record {
  name = name;
  column_type = column_type;
  nullable = nullable;
  primary_key = false;
  server_default = none;
  foreign_key = none;
}

-- with `server_default=sa.text(…)`
abbrev pub default_column : Text → ColumnType → Text → Column
default_column name column_type expression = record (column name column_type false) {
  server_default = some expression;
}

-- with `sa.ForeignKey(…)`
abbrev pub reference : Text → Text → OnDelete → Bool → Column
reference name table ondelete nullable = record (column name uuid nullable) {
  foreign_key = some (record { table = table; column = codes "id"; ondelete = ondelete });
}

abbrev pub id_column : Column
id_column = record (default_column (codes "id") uuid (codes "gen_random_uuid()")) {
  primary_key = true;
}

abbrev pub now_column : Text → Column
now_column name = default_column name timestamptz (codes "now()")
