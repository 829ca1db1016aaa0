-- ===== src/Tests/Command.antt =====
-- The tables of a store on Oracle, whose table is there already, and of one on Postgres.
use push_cache.Base.{
  Bool, false, ◌||◌, ◌&&◌, none, some, List, [], ◌∷◌, Text, codes, text_eq, if◌then◌else◌,
}
use push_cache.Error.{ok, err}
use push_cache.State.Build.{StoreDefinition, oracle_store, postgres_store}
use push_cache.Command.{DbError, Databases, create_oracle, create_postgres}
use push_cache.Command.Tables.{Place, in_oracle, in_postgres}
use push_cache.Tests.Fixtures.{users, orders}

-- The tables that there are.
abbrev same : Place → Place → Bool
same (in_oracle u a t) (in_oracle v b s) = text_eq u v && (text_eq a b && text_eq t s)
same (in_postgres u t) (in_postgres v s) = text_eq u v && text_eq t s
same (in_oracle u a t) (in_postgres v s) = false
same (in_postgres u t) (in_oracle v b s) = false

abbrev among : Place → List Place → Bool
among p [] = false
among p (q ∷ qs) = same p q || among p qs

-- A world lists the statements that have been executed, with their connections.
abbrev taken : DbError
taken = record { code = some 955; displayed = codes "ORA-00955" }

abbrev databases : Databases (List Place)
databases = record {
  Connection = Text × Text;
  Pool = Text;
  connect = λ user password address w. (ok (user, address), w);
  execute = λ conn sql w.
      let p = in_oracle conn.0 conn.1 sql in if among p w then (err taken, w) else (ok tt, p ∷ w);
  connect_pool = λ n url w. (ok url, w);
  execute_in = λ pool sql w. (ok tt, in_postgres pool sql ∷ w);
}

abbrev statement : Place → Place
statement (in_oracle u a t) = in_oracle u a (create_oracle t)
statement (in_postgres u t) = in_postgres u (create_postgres t)

abbrev definitions : List StoreDefinition
definitions =
    record {
      name = users;
      store_type = oracle_store (record {
        url = record {
          username = users;
          password = none;
          host = some (codes "db");
          port = none;
          path = codes "/x";
          printed = [];
        };
        table_name = codes "t";
      });
      schemas = none;
    }
    ∷ record {
      name = orders;
      store_type = postgres_store (record { url = codes "postgres://p/"; table_name = codes "t" });
      schemas = none;
    }
    ∷ []

-- The table of the first store is there already.
abbrev before : List Place
before = in_oracle users (codes "//db/x") (create_oracle (codes "t")) ∷ []
