-- ===== src/Languages.antt =====
-- `LANGUAGES` and `getLanguage` of competitor-frontend/src/lib/languages.ts: the languages of the
-- editor and the code that it starts with.
use algo_test.Prelude.{
  to_lower, String, Option, List, [], ◌∷◌, ◌++◌, map, Text, codes, trim, text_eq, find,
}
use algo_test.History.{alias_of}

-- `Language` of competitor-frontend/src/types/code.ts.
pub record Language : Type 0 where
  pub id : Text
  pub label : Text
  pub monaco : Text
  pub starter : Text

-- A template literal, one string for each of its lines.
abbrev pub of_lines : List String → Text
of_lines [] = []
of_lines (line ∷ rest) = codes line ++ codes "\n" ++ of_lines rest

abbrev pub cpp_language : Language
cpp_language = record {
  id = codes "cpp";
  label = codes "C++";
  monaco = codes "cpp";
  starter = of_lines (
      "#include <bits/stdc++.h>" ∷ "using namespace std;" ∷ "" ∷ "int main() {"
      ∷ "    ios::sync_with_stdio(false);" ∷ "    cin.tie(nullptr);" ∷ "" ∷ "    return 0;" ∷ "}"
      ∷ []);
}

abbrev pub c_language : Language
c_language = record {
  id = codes "c";
  label = codes "C";
  monaco = codes "c";
  starter = of_lines (
      "#include <stdio.h>" ∷ "#include <stdlib.h>" ∷ "" ∷ "int main(void) {" ∷ "    return 0;" ∷ "}"
      ∷ []);
}

abbrev pub java_language : Language
java_language = record {
  id = codes "java";
  label = codes "Java";
  monaco = codes "java";
  starter = of_lines (
      "import java.util.Scanner;" ∷ "" ∷ "public class Main {"
      ∷ "    public static void main(String[] args) {"
      ∷ "        Scanner scanner = new Scanner(System.in);" ∷ "    }" ∷ "}" ∷ []);
}

abbrev pub python_language : Language
python_language = record {
  id = codes "python";
  label = codes "Python";
  monaco = codes "python";
  starter = of_lines (
      "import sys" ∷ "input = sys.stdin.readline" ∷ "" ∷ "" ∷ "def main():" ∷ "    pass" ∷ "" ∷ ""
      ∷ "if __name__ == \"__main__\":" ∷ "    main()" ∷ []);
}

abbrev pub js_language : Language
js_language = record {
  id = codes "js";
  label = codes "JavaScript";
  monaco = codes "javascript";
  starter = of_lines (
      "const fs = require('fs');" ∷ "" ∷ "function main() {"
      ∷ "    const input = fs.readFileSync('/dev/stdin', 'utf-8');" ∷ "}" ∷ "" ∷ "main();" ∷ []);
}

abbrev pub rust_language : Language
rust_language = record {
  id = codes "rust";
  label = codes "Rust";
  monaco = codes "rust";
  starter = of_lines (
      "use std::io::{self, Read};" ∷ "" ∷ "fn main() {" ∷ "    let mut input = String::new();"
      ∷ "    io::stdin().read_to_string(&mut input).unwrap();"
      ∷ "    let mut tokens = input.split_whitespace();" ∷ "" ∷ "    // Solution here" ∷ "}" ∷ []);
}

-- Its first entry is used where no language is found.
abbrev pub languages : List Language
languages =
    cpp_language ∷ c_language ∷ java_language ∷ python_language ∷ js_language ∷ rust_language ∷ []

unfoldable pub get_language : Text → Option Language
unfolding alias_of trim
get_language language_id =
    let normalized_id = alias_of (map to_lower (trim language_id)) in
    find (λ language. text_eq language.id normalized_id) languages
